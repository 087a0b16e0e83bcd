-- ===== src/Nft/Validate.antt =====
-- internal/nft/render.go and output.go: validate and validateOutput. An error is `false`, or `none`
-- where the assigned interfaces are carried on; its text is not modelled.
pub mod Exclusive
use ghostd.Prelude.{
  ℕ, ℤ, String, ◌==◌, Bool, true, false, ◌&&◌, ◌||◌, not, Option, none, some, List, [], ◌∷◌,
  if◌then◌else◌, is_none, lookup, contains, joined, or_else, map,
}
use ghostd.Nft.Policy.{
  PortRule, RedirectRule, SshRule, NfsRule, Zone, Ingress, OutputRule, OutputPolicy, DesiredState,
}
use ghostd.Nft.Names.{valid_zone_name, valid_interface, valid_port, same_port, equal_fold}

-- net/netip, as far as the policy asks it.
pub record NetIp : Type 1 where
  pub Addr : Type 0
  pub parse_addr : String → Option Addr
  -- the address of the prefix
  pub parse_prefix : String → Option Addr
  pub is4 : Addr → Bool
  pub has_zone : Addr → Bool

-- if refused { return err }
abbrev pub unless : {A : Type 0} → Bool → Option A → Option A
unless refused k = if refused then none else k

abbrev pub is_empty_list : {A : Type 0} → List A → Bool
is_empty_list [] = true
is_empty_list (x ∷ xs) = false

abbrev pub is_some : {A : Type 0} → Option A → Bool
is_some o = not (is_none o)

unfoldable pub any_of : {A : Type 0} → (A → Bool) → List A → Bool
any_of refused [] = false
any_of refused (x ∷ xs) = refused x || any_of refused xs

unfoldable pub not_transport : String → Bool
not_transport proto = not (proto == "tcp") && not (proto == "udp")

-- builtinServices
abbrev pub builtin_services : List String
builtin_services = "mdns" ∷ "tftp" ∷ "dns" ∷ "dhcp" ∷ "dhcpv6-client" ∷ "http" ∷ "https" ∷ []

module _ (ip : NetIp) where
  -- ParseAddr, and the address of ParsePrefix where that fails
  unfoldable pub destination_addr : String → Option ip.Addr
  destination_addr destination = elim (ip.parse_addr destination) [
    | some addr ↦ some addr
    | none ↦ ip.parse_prefix destination
  ]

  unfoldable pub bad_destination : OutputRule → Bool
  unfolding destination_addr
  bad_destination rule = elim (destination_addr rule.destination) [
    | none ↦ true
    | some addr ↦
        ip.has_zone addr
        || ((rule.family == "ip" && not (ip.is4 addr)) || (rule.family == "ip6" && ip.is4 addr))
  ]

  unfoldable pub bad_output_rule : OutputRule → Bool
  unfolding bad_destination not_transport
  bad_output_rule rule =
      (not (valid_port rule.port) || not_transport rule.proto)
      || ((not (rule.family == "") && (not (rule.family == "ip") && not (rule.family == "ip6")))
          || ((not (rule.interface_name == "") && not (valid_interface rule.interface_name))
              || (not (rule.destination == "") && bad_destination rule)))

  unfoldable pub validate_output : Option OutputPolicy → Bool
  unfolding bad_output_rule any_of
  validate_output none = true
  validate_output (some output) =
      (output.policy == "DROP" || output.policy == "ACCEPT")
      && not (any_of bad_output_rule output.rules)

  unfoldable pub bad_export : String → Bool
  bad_export source =
      elim (ip.parse_prefix source) [ none ↦ true | some addr ↦ not (ip.is4 addr) ]
      && elim (ip.parse_addr source) [ none ↦ true | some addr ↦ not (ip.is4 addr) ]

unfoldable pub bad_port_rule : PortRule → Bool
unfolding not_transport
bad_port_rule rule = not (valid_port rule.port) || not_transport rule.proto

bad_ports : RedirectRule → Bool
bad_ports rule =
    not (valid_port rule.port)
    || (not (valid_port rule.to_port) || same_port rule.port rule.to_port)

-- seenIngress, over the ports seen so far
ingress_redirects_ok : List ℤ → List RedirectRule → Bool
unfolding bad_ports any_of
ingress_redirects_ok seen [] = true
ingress_redirects_ok seen (rule ∷ rules) =
    not (bad_ports rule || (not (rule.proto == "tcp") || any_of (same_port rule.port) seen))
    && ingress_redirects_ok (rule.port ∷ seen) rules

unfoldable pub validate_ingress : Option Ingress → Bool
unfolding ingress_redirects_ok
validate_ingress none = true
validate_ingress (some ingress) =
    not (is_empty_list ingress.interfaces || is_empty_list ingress.redirects)
    && (not (any_of (λ i. not (valid_interface i)) ingress.interfaces)
        && ingress_redirects_ok [] ingress.redirects)

-- seenRedirects, over the protocols and ports seen so far
redirects_ok : List RedirectRule → List RedirectRule → Bool
unfolding bad_ports not_transport any_of
redirects_ok seen [] = true
redirects_ok seen (rule ∷ rules) =
    not (
      bad_ports rule
      || (not_transport rule.proto
          || any_of (λ r. r.proto == rule.proto && same_port r.port rule.port) seen))
    && redirects_ok (rule ∷ seen) rules

-- A redirect-only policy has nothing but redirects in its zones.
unfoldable pub filters : Zone → Bool
filters zone =
    is_some zone.ssh
    || (is_some zone.nfs
        || (not (is_empty_list zone.services)
            || (not (is_empty_list zone.ports)
                || (not (is_empty_list zone.forward)
                    || (zone.masquerade
                        || (not (zone.target == "") && not (zone.target == "DROP")))))))

-- The interfaces of a zone, beside those that are assigned already.
unfoldable pub assign_all : List String → List String → Option (List String)
assign_all [] assigned = some assigned
assign_all (i ∷ is) assigned =
    let rest = assign_all is (i ∷ assigned) in
    unless (not (valid_interface i)) (unless (contains assigned i) rest)

unfoldable pub bad_target : String → Bool
bad_target target =
    not (target == "") && (not (equal_fold target "DROP") && not (equal_fold target "ACCEPT"))

-- hasReachableZone
abbrev pub reachable_zone : String × Zone → Bool
reachable_zone (name, zone) = name == "trusted" || is_some zone.ssh

module _ (ip : NetIp) where
  -- What is asked of a zone after its interfaces.
  unfoldable pub bad_rest : List (String × Zone) → Zone → Bool
  unfolding bad_port_rule redirects_ok bad_export any_of
  bad_rest zones zone =
      elim zone.ssh [ none ↦ false | some ssh ↦ not (valid_port ssh.port) ]
      || (any_of bad_port_rule zone.ports
          || (not (redirects_ok [] zone.redirects)
              || (elim zone.nfs [ none ↦ false | some nfs ↦ any_of (bad_export ip) nfs.exports ]
                  || (any_of (λ egress. is_none (lookup egress zones)) zone.forward
                      || (any_of (λ svc. not (contains builtin_services svc)) zone.services
                          || is_empty_list zone.interfaces)))))

  -- One turn of the loop over the zones: the interfaces assigned after it.
  unfoldable pub validate_zone :
      Bool → List (String × Zone) → String → Zone → List String → Option (List String)
  unfolding filters bad_target assign_all bad_rest
  validate_zone redirect_only zones name zone assigned = unless (redirect_only && filters zone) (
      unless (not (valid_zone_name name)) (
        unless (bad_target zone.target) (elim (assign_all zone.interfaces assigned) [
          | none ↦ none
          | some assigned' ↦ unless (bad_rest zones zone) (some assigned')
        ])))

  unfoldable pub validate_zones :
      Bool → List (String × Zone) → List (String × Zone) → List String → Option (List String)
  unfolding validate_zone
  validate_zones redirect_only all [] assigned = some assigned
  validate_zones redirect_only all ((name, zone) ∷ rest) assigned =
      elim (validate_zone redirect_only all name zone assigned) [
        | none ↦ none
        | some assigned' ↦ validate_zones redirect_only all rest assigned'
      ]

  unfoldable pub validate : DesiredState → Bool
  unfolding validate_output validate_ingress validate_zones any_of
  validate ds =
      not (ds.redirect_only && (is_some ds.output || (is_some ds.ingress || ds.allow_dnat_forward)))
      && (validate_output ip ds.output
          && (not (is_empty_list ds.zones)
              && (validate_ingress ds.ingress
                  && (is_some (validate_zones ds.redirect_only ds.zones ds.zones [])
                      && (any_of reachable_zone ds.zones || ds.redirect_only)))))
