-- ===== src/Tests/Scripts.antt =====
-- The script of the policy of two zones.
use mathlib.Core.List.{Permᴰ}
use ghostd.Nft.Chains.{
  ReachabilityGuard, ingress_input, input_chain, zone_of, sorted_zone_names, forward_chain,
}
use ghostd.Nft.Policy.{Ingress, Zone}
use ghostd.Nft.Render.{render, file_of}
use ghostd.Nft.Render.Accepted.{script_lines}
use ghostd.Nft.Render.Backends.{Once, input_chain-Opens}
use ghostd.Nft.Render.Forwards.{IsFixed, Forwards, forward_chain-Forwards}
use ghostd.Nft.Render.Order.{SameMap, with_zones, render-SameMap}
use ghostd.Nft.Render.Reach.{Jumps, render_reaches}
use ghostd.Nft.Render.Spelled.{reach_text, header_text, open_text, input_start}
use ghostd.Nft.Names.{
  valid_interface, valid_zone_name, equal_fold, valid_port, all_codes, all_within, is_word,
  is_letter, is_interface_char, same_port,
}
use ghostd.Nft.Validate.{validate}
use ghostd.Prelude.{
  ℤ, pos, ◌==◌, subst, inl, inr, Bool-cases, eq_iff, contains, ◌↔◌, ◌⊎◌, String, ◌≡◌, refl, false,
  some, List, [], ◌∷◌, ◌++◌, Any, lookup,
}
use ghostd.Tests.Firewall.{one_address, policy, lan, wan}

abbrev guard : ReachabilityGuard
guard = record { tailscale_interface = "tailscale0"; port = pos 7443 }

abbrev script : String
script = file_of (script_lines policy guard)

policy_rendered : render one_address policy guard ≡ some script
unfolding render validate valid_port valid_interface all_within is_interface_char is_word is_letter
    same_port valid_zone_name all_codes equal_fold contains lookup
policy_rendered = refl

abbrev other_way : List (String × Zone)
other_way = ("wan", wan) ∷ ("lan", lan) ∷ []

other_way_rendered :
    render one_address (with_zones policy other_way) guard
    ≡ some (file_of (script_lines (with_zones policy other_way) guard))
unfolding render validate valid_port valid_interface all_within is_interface_char is_word is_letter
    same_port valid_zone_name all_codes equal_fold contains lookup
other_way_rendered = refl

other_way-at : (name : String) → lookup name policy.zones ≡ lookup name other_way
unfolding lookup
other_way-at name = elim (Bool-cases ("lan" == name)) [
  | inl e ↦ subst (λ n. lookup n policy.zones ≡ lookup n other_way) ((eq_iff "lan" name).0 e) refl
  | inr e ↦ rw e refl
]

other_way-SameMap : SameMap policy.zones other_way
other_way-SameMap = record { keys = Permᴰ.swap refl refl; at = other_way-at }

render-SameMap_example : script ≡ file_of (script_lines (with_zones policy other_way) guard)
render-SameMap_example =
    render-SameMap one_address policy other_way guard script
      (file_of (script_lines (with_zones policy other_way) guard)) other_way-SameMap policy_rendered
      other_way_rendered

render_reaches_example :
    (before : List String) × (zone_lines : List String) × (after : List String) × (script
      ≡ file_of (
          before
          ++ (input_start
              ++ (reach_text "tailscale0" (pos 7443)
                  ∷ (zone_lines ++ (ingress_input policy.ingress ++ ("  }" ∷ after)))))))
    × ((line : String) → Any (λ l. l ≡ line) zone_lines ↔ Jumps policy guard line)
    × ((name : String)
        → Any (λ x. x ≡ name) ("lan" ∷ "wan" ∷ [])
        → Any (λ l. l ≡ header_text name) after)
render_reaches_example = render_reaches one_address policy guard script refl policy_rendered

forward_chain-Forwards_example :
    Any
      (λ l. l ≡ "    iifname { \"br-lan\", \"eth0\" } oifname { \"eth1\" } accept")
      (forward_chain (zone_of policy.zones) policy (sorted_zone_names policy.zones))
    ↔ (IsFixed false "    iifname { \"br-lan\", \"eth0\" } oifname { \"eth1\" } accept"
        ⊎ Forwards
            (zone_of policy.zones)
            "    iifname { \"br-lan\", \"eth0\" } oifname { \"eth1\" } accept"
            ("lan" ∷ "wan" ∷ []))
forward_chain-Forwards_example =
    forward_chain-Forwards policy "    iifname { \"br-lan\", \"eth0\" } oifname { \"eth1\" } accept"

abbrev two_names_one_port : Ingress
two_names_one_port = record {
  interfaces = "eth1" ∷ [];
  redirects =
      record { port = pos 443; to_port = pos 8443; proto = "tcp" }
      ∷ record { port = pos 80; to_port = pos 8443; proto = "tcp" }
      ∷ [];
}

input_chain-Opens_example :
    (before : List String) × (ports : List ℤ) × (input_chain
        (zone_of policy.zones)
        (record policy { ingress = some two_names_one_port })
        guard
        ("lan" ∷ [])
      ≡ before ++ (open_text ("eth1" ∷ []) ports ∷ "  }" ∷ []))
    × Once ports
    × ((n : ℤ) → Any (λ p. p ≡ n) ports ↔ Any (λ r. r.to_port ≡ n) two_names_one_port.redirects)
input_chain-Opens_example =
    input_chain-Opens (zone_of policy.zones) (record policy { ingress = some two_names_one_port })
      guard ("lan" ∷ []) two_names_one_port refl refl
