-- ===== src/Tests/Grants.antt =====
-- The theorems on the ledger of addresses, at the small network.
use ghostd.Prelude.{
  ◌⊎◌, arith, ◌-◌, List, length, contains, ℕ, pos, String, ◌≡◌, refl, true, false, none, some, [],
  ◌∷◌, All, inl, inr,
}
use ghostd.Ledger.Accepted.{Pairwise}
use ghostd.Ledger.Accepted.Whole.{Sound, Apart, validate_config-Sound}
use ghostd.Ledger.Accept.{
  device_ids, pool_ends, valid_pool, is_host, add_aliases, add_nodes, overlaps_any, valid_prefix,
  valid_server, selector_of, valid_tftp,
}
use ghostd.Nft.Names.{all_within, is_interface_char, is_word, is_letter}
use ghostd.Ledger.Config.{Scope, scope_is6, find_scope, DhcpOption}
use ghostd.Ledger.Binding.{Event, no_binding, expired}
use ghostd.Ledger.Grant.{allocate}
use ghostd.Ledger.Indexed.Save.{IsIndexed, save_binding-IsIndexed}
use ghostd.Ledger.Identifiers.{is_label, valid_zone, valid_client}
use ghostd.Ledger.Settings.{
  validate_config, accept_scopes, accept_scope, no_scopes, pools_with, boots, nested,
  valid_reservations, valid_times, valid_extras,
}
use ghostd.Ledger.Store.{save_binding, rewritten, append_event, read_binding}
use ghostd.Ledger.Admit.{Admitted, admit, hardware, fits_family}
use ghostd.Ledger.Allocate.{allowed, available, preferred, reservation, reserves, in_pool, look}
use ghostd.Ledger.Journal.{IsLogged, Counts, events_after, least, events_after-Counts}
use ghostd.Ledger.Ends.Whole.{Settles, allocate-Settles}
use ghostd.Ledger.Grant.{
  allocate_for, allocating, making, choose, chosen, grant_of, new_offer, keeps, associated,
  inventoried, timed, grant_kind, device_id,
}
use ghostd.Ledger.Options.{valid_option, wire, number_bits, is_number, refused_code, has_code}
use ghostd.Ledger.Options.Wire.{wire-Spells, Spells}
use ghostd.Ledger.Owned.{release_owner}
use ghostd.Ledger.Policy.{Granted}
use ghostd.Ledger.Policy.Commit.{Commits, allocate_commit}
use ghostd.Ledger.Policy.Taken.{IsTaken}
use ghostd.Ledger.Policy.Whole.{allocate-Granted}
use ghostd.Ledger.Release.{release, let_go}
use ghostd.Ledger.Store.{read_association, decoded_association, read_slot}
use ghostd.Ledger.Tx.{
  Ledger, ok, err, unavailable, ◌>>=◌, gets, modify, pure, update, end_of, require, must,
}
use ghostd.Tests.Addresses.{
  net, config, office, new_ledger, new_ledger-IsIndexed, clock, lease, eighty-lt,
}

config_accepted : validate_config net config ≡ true
unfolding validate_config device_ids accept_scopes accept_scope no_scopes pools_with boots nested
    valid_reservations valid_times valid_extras pool_ends valid_pool is_host add_aliases add_nodes
    overlaps_any valid_prefix valid_server selector_of valid_tftp is_label valid_zone valid_client
    contains all_within is_interface_char is_word is_letter scope_is6
config_accepted = refl

validate_config-Sound_example :
    All (Sound net config) config.scopes × Pairwise (Apart net) config.scopes
validate_config-Sound_example = validate_config-Sound net config config_accepted

-- The ledger after the first lease.
abbrev pub leased : Ledger
leased = append_event clock "grant" "" lease (rewritten no_binding lease new_ledger)

lease_saved : save_binding clock lease "grant" new_ledger ≡ ok (tt, leased)
unfolding save_binding read_binding read_slot ◌>>=◌ gets modify pure
lease_saved = refl

pub leased-IsIndexed : IsIndexed leased
leased-IsIndexed =
    save_binding-IsIndexed clock lease "grant" new_ledger leased new_ledger-IsIndexed (λ _. refl)
      lease_saved

save_binding-IsIndexed_example : IsIndexed leased
save_binding-IsIndexed_example =
    save_binding-IsIndexed clock lease "grant" new_ledger leased new_ledger-IsIndexed (λ _. refl)
      lease_saved

laptop_granted :
    allocate net true clock 1000 config "office" "mac:02:00:00:00:00:01" "02:00:00:00:00:01"
      "laptop" "10.0.0.5" true new_ledger
    ≡ (ok lease, leased)
unfolding allocate allocate_for admit hardware fits_family valid_client scope_is6 find_scope
    allocating preferred choose chosen available allowed reservation reserves in_pool look making
    grant_of new_offer keeps associated inventoried timed grant_kind device_id read_association
    decoded_association save_binding read_binding read_slot update end_of require must ◌>>=◌ gets
    modify pure
laptop_granted = refl

allocate-Granted_example :
    (s : Scope) × (hw : String) × Admitted net config "office" "mac:02:00:00:00:00:01"
      "02:00:00:00:00:01" s hw
    × Granted net 1000 s "office" "mac:02:00:00:00:00:01" hw "10.0.0.5" true new_ledger leased lease
allocate-Granted_example =
    allocate-Granted net true clock 1000 config "office" "mac:02:00:00:00:00:01" "02:00:00:00:00:01"
      "laptop" "10.0.0.5" true new_ledger leased lease new_ledger-IsIndexed laptop_granted

allocate-Settles_example : Settles leased (
    allocate net true clock 1100 config "office" "mac:02:00:00:00:00:02" "02:00:00:00:00:02" "" ""
      false leased)
allocate-Settles_example =
    allocate-Settles net true clock 1100 config "office" "mac:02:00:00:00:00:02" "02:00:00:00:00:02"
      "" "" false leased config_accepted

laptop_admitted :
    admit net config "office" "mac:02:00:00:00:00:01" "02:00:00:00:00:01"
    ≡ some (office, "02:00:00:00:00:01")
unfolding admit hardware fits_family valid_client scope_is6 find_scope
laptop_admitted = refl

first_address :
    allowed net office "mac:02:00:00:00:00:01" "02:00:00:00:00:01" "10.0.0.5" ≡ some true
unfolding allowed reservation reserves in_pool scope_is6
first_address = refl

nothing_there : read_binding "office" "10.0.0.5" new_ledger ≡ ok (no_binding, new_ledger)
unfolding read_binding read_slot ◌>>=◌ gets pure
nothing_there = refl

nothing_known : read_association "mac:02:00:00:00:00:01" new_ledger ≡ ok (none, new_ledger)
unfolding read_association decoded_association ◌>>=◌ gets pure
nothing_known = refl

allocate_commit_example :
    ((true ≡ true)
      × ¬ IsTaken 1000 "mac:02:00:00:00:00:01" no_binding
      × Commits 1000 office "office" "mac:02:00:00:00:00:01" "10.0.0.5" new_ledger (
          allocate net true clock 1000 config "office" "mac:02:00:00:00:00:01" "02:00:00:00:00:01"
            "laptop" "10.0.0.5" true new_ledger))
    ⊎ (((true ≡ false) ⊎ IsTaken 1000 "mac:02:00:00:00:00:01" no_binding)
        × (allocate net true clock 1000 config "office" "mac:02:00:00:00:00:01" "02:00:00:00:00:01"
              "laptop" "10.0.0.5" true new_ledger
            ≡ (err unavailable, new_ledger)))
allocate_commit_example =
    allocate_commit net clock 1000 config "office" "mac:02:00:00:00:00:01" "02:00:00:00:00:01"
      "laptop" "10.0.0.5" new_ledger office "02:00:00:00:00:01" true no_binding none laptop_admitted
      refl first_address nothing_there nothing_known

lease_there : read_binding "office" "10.0.0.5" leased ≡ ok (lease, leased)
unfolding read_binding read_slot append_event rewritten ◌>>=◌ gets pure
lease_there = refl

release_owner_example :
    release true clock 2000 "office" "mac:02:00:00:00:00:01" "10.0.0.5" true leased ≡ (
      ok tt,
      append_event clock "decline" ""
          (let_go 2000 true lease)
          (rewritten lease (let_go 2000 true lease) leased),
    )
release_owner_example =
    release_owner clock 2000 "office" "mac:02:00:00:00:00:01" "10.0.0.5" true leased lease
      leased-IsIndexed lease_there

abbrev port : DhcpOption
port = record { code = pos 150; kind = "u16"; value = "80" ∷ [] }

port_accepted : valid_option net port ≡ true
unfolding valid_option is_number number_bits refused_code has_code
port_accepted = refl

wire-Spells_example :
    (v : String) × (n : ℕ) × (port.value ≡ v ∷ [])
    × (net.parse_uint v (number_bits "u16") ≡ some n)
    × Spells (number_bits "u16") n (wire net (λ _. []) port)
wire-Spells_example = wire-Spells net eighty-lt (λ _. []) port (inr (inl refl)) port_accepted

abbrev lapsed : Ledger
lapsed =
    append_event clock "expire" "" (record lease { state = expired })
      (rewritten lease (record lease { state = expired }) leased)

events_after-Counts_example :
    (leased.sequence ≡ 1)
    × IsLogged leased
    × ((out : List Event) × (events_after 0 10 leased ≡ ok out)
        × Counts 0 out
        × (length out ≡ least 10 (1 - 0)))
unfolding append_event rewritten
events_after-Counts_example =
    events_after-Counts clock lease "grant" new_ledger leased 0 10
      (record { numbered = tt; last = refl }) lease_saved (omega arith) (omega arith) (omega arith)
