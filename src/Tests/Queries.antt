-- ===== src/Tests/Queries.antt =====
-- The resolver's theorems, at two containers: one may browse the printers of the LAN.
use ghostd.Ledger.Identifiers.{has_suffix, split}
use ghostd.Prelude.{
  ℕ, ◌+◌, ◌<◌, ◌≤◌, String, ◌==◌, ◌≡◌, ◌≢◌, ◌↔◌, refl, arith, true, false, Option, none, some, List,
  [], ◌∷◌, All, Any, length, if◌then◌else◌, nat_eq, contains, lookup, insert, erase,
}
use ghostd.Resolver.Acl.{
  DnsIdentity, validate_acl, accepts_name, accept_names, accepts_service, class_is, accept_services,
  accept_identity,
}
use ghostd.Resolver.Acl.Separate.{IsSound, Separate, validate_acl-Separate}
use ghostd.Resolver.History.{
  ResolverEvent, replace, ask, answer, after, enter, nth, policies_after, step,
}
use ghostd.Resolver.History.Bound.{after-AllBounded}
use ghostd.Resolver.History.Opened.{grant_host-Opens}
use ghostd.Resolver.History.Traced.{Explained, acl_serve-Explained}
use ghostd.Resolver.Host.{Host, IsLowering}
use ghostd.Resolver.Labels.{service_class, class_of, class_in, valid_name, trim_suffix}
use ghostd.Resolver.Lan.{lookup_host, listed_addresses, add_address, parsed_first, prints}
use ghostd.Resolver.Lan.Distinct.{Distinct, Written, lookup_host-Distinct}
use ghostd.Resolver.Local.{
  Rr, srv, found, LocalHandler, grant_targets, grant_found, store_policy, browse_reply, local_serve,
  serve_question, type_ptr, type_srv, type_a,
}
use ghostd.Resolver.Policy.{
  Policy, Policies, Question, passes, acl_serve, admit_question, policy_for, policy_of, decide,
  decide_local, grant_host, grant_time, sweep, most_grants, set_policies, new_policies, new_policy,
  class_inet, matches_name, in_force,
}
use ghostd.Resolver.Policy.Admits.{Entitled, acl_serve-passes_iff}

abbrev pub parsed : String → Option ℕ
parsed s =
    if s == "100.64.0.21"
    then some 21
    else if s == "100.64.0.22"
    then some 22
    else if s == "100.64.0.1"
    then some 1
    else none

abbrev pub small_lan : Host
small_lan = record {
  Ip = ℕ;
  parse_ip = parsed;
  print_ip = λ n.
      if nat_eq n 21 then "100.64.0.21" else if nat_eq n 22 then "100.64.0.22" else "100.64.0.1";
  same_ip = nat_eq;
  is_unspecified = λ _. false;
  is_multicast = λ _. false;
  is_v4 = λ _. true;
  to_lower = λ s. s;
  fields = λ s. s ∷ [];
}

small_lan-IsLowering : IsLowering small_lan
small_lan-IsLowering = record { again = λ s. refl }

abbrev pub printing : DnsIdentity
printing = record {
  name = "printing";
  listen = "100.64.0.21";
  allow_names = "printers.example" ∷ [];
  allow_services = "_ipp._tcp" ∷ [];
}

abbrev pub web : DnsIdentity
web = record { name = "web"; listen = "100.64.0.22"; allow_names = "*" ∷ []; allow_services = [] }

accepted : validate_acl small_lan (printing ∷ web ∷ []) ≡ some tt
unfolding validate_acl accept_identity accept_names accept_services service_class valid_name
    accepts_name contains accepts_service class_is class_of class_in
accepted = refl

validate_acl-Separate_example :
    All (λ x. IsSound small_lan x) (printing ∷ web ∷ []) × Separate small_lan (printing ∷ web ∷ [])
validate_acl-Separate_example = validate_acl-Separate small_lan (printing ∷ web ∷ []) accepted

abbrev browse_printers : Question
browse_printers = record { name = "_ipp._tcp.local."; qtype = type_ptr; qclass = class_inet }

abbrev printer : Question
printer = record { name = "printer.local."; qtype = type_a; qclass = class_inet }

abbrev one_printer : List (Rr small_lan)
one_printer =
    srv
      (record { name = "office._ipp._tcp.local."; rrtype = type_srv; class = class_inet; ttl = 30 })
      "printer.local."
    ∷ []

abbrev handler : LocalHandler small_lan
handler = record { lookup = λ _. none; browse = some (λ _ _. found [] one_printer) }

-- The container browses at 1000, and the LAN answers at 1001.
abbrev browsed : List (ResolverEvent small_lan)
browsed =
    answer handler true (λ n. 1001 + n) 0
    ∷ ask "printing" 1000 (browse_printers ∷ [])
    ∷ replace (printing ∷ web ∷ [])
    ∷ []

abbrev opened : Policies
opened = (after small_lan browsed).policies

printer-opened : acl_serve small_lan opened "printing" 2000 (printer ∷ []) ≡ passes "printing"
unfolding acl_serve admit_question policy_for decide decide_local service_class has_suffix after
    step enter nth policies_after local_serve contains lookup insert erase set_policies new_policies
    new_policy policy_of grant_host grant_targets grant_found browse_reply serve_question
    trim_suffix class_of class_in store_policy matches_name in_force
printer-opened = refl

acl_serve-Explained_example :
    Explained small_lan small_lan-IsLowering browsed "printing" 2000 printer
acl_serve-Explained_example =
    acl_serve-Explained small_lan small_lan-IsLowering browsed "printing" 2000 printer
      printer-opened

acl_serve-passes_iff_example :
    (acl_serve small_lan opened "printing" 2000 (printer ∷ []) ≡ passes "printing")
    ↔ Entitled small_lan opened "printing" 2000 (printer ∷ [])
acl_serve-passes_iff_example = acl_serve-passes_iff small_lan opened "printing" 2000 (printer ∷ [])

abbrev fresh : Policies
fresh = set_policies (printing ∷ web ∷ [])

printing_known : policy_for fresh "printing" ≡ some (new_policy printing)
unfolding policy_for set_policies new_policies new_policy lookup insert erase
printing_known = refl

nothing_granted : length (sweep 1000 (new_policy printing).granted) < most_grants
unfolding sweep new_policy
nothing_granted = omega arith

grant_host-Opens_example :
    ((q : Question) (later : ℕ)
      → q.name ≡ "printer.local."
      → q.qclass ≡ class_inet
      → has_suffix q.name ".local." ≡ true
      → service_class small_lan q.name ≡ none
      → later < 1000 + grant_time
      → acl_serve small_lan
          (store_policy "printing"
            (grant_host small_lan 1000 "printer.local." (new_policy printing))
            fresh)
          "printing"
          later
          (q ∷ [])
        ≡ passes "printing")
    × ((other : String) (later : ℕ) (questions : List Question)
        → other ≢ "printing"
        → acl_serve small_lan
            (store_policy "printing"
              (grant_host small_lan 1000 "printer.local." (new_policy printing))
              fresh)
            other
            later
            questions
          ≡ acl_serve small_lan fresh other later questions)
grant_host-Opens_example =
    grant_host-Opens small_lan fresh "printing" "printer.local." (new_policy printing) 1000
      printing_known nothing_granted

abbrev opened_printing : Policy
opened_printing = record { id = printing; granted = ("printer.local.", 1001 + grant_time) ∷ [] }

opened_known : policy_for opened "printing" ≡ some opened_printing
unfolding policy_for after step enter nth policies_after local_serve acl_serve admit_question decide
    decide_local service_class has_suffix contains lookup insert erase set_policies new_policies
    new_policy policy_of grant_host grant_targets grant_found browse_reply serve_question
    trim_suffix class_of class_in store_policy matches_name in_force
opened_known = refl

after-AllBounded_example : length opened_printing.granted ≤ most_grants
after-AllBounded_example =
    after-AllBounded small_lan browsed "printing" opened_printing opened_known

two_found :
    lookup_host small_lan (prints "100.64.0.21\n100.64.0.22\n100.64.0.21") ≡ some (21 ∷ 22 ∷ [])
unfolding lookup_host listed_addresses add_address parsed_first split contains
two_found = refl

lookup_host-Distinct_example :
    Distinct small_lan (21 ∷ 22 ∷ [])
    × ((ip : ℕ)
        → Any
            (λ line. parsed_first small_lan (line ∷ []) ≡ some ip)
            (split "100.64.0.21\n100.64.0.22\n100.64.0.21" "\n")
        → Written small_lan (small_lan.print_ip ip) (21 ∷ 22 ∷ []))
lookup_host-Distinct_example =
    lookup_host-Distinct small_lan "100.64.0.21\n100.64.0.22\n100.64.0.21" (21 ∷ 22 ∷ []) two_found
