-- ===== src/Nft/Chains.antt =====
-- internal/nft/render.go and output.go: the lines that each chain of the script has, without their
-- line ends.
use ghostd.Nft.Names.{same_port}
use ghostd.Nft.Policy.{RedirectRule, Zone, Ingress, DesiredState}
use ghostd.Nft.Sorting.{text_le, port_le, sort, itoa}
use ghostd.Nft.Validate.{any_of, is_empty_list}
use ghostd.Prelude.{
  ℤ, pos, String, ◌==◌, Bool, true, false, ◌&&◌, not, Option, none, some, List, [], ◌∷◌, ◌++◌, map,
  lookup, or_else, joined, if◌then◌else◌,
}

-- ReachabilityGuard
pub record ReachabilityGuard : Type 0 where
  pub tailscale_interface : String
  pub port : ℤ

-- fmt.Sprintf of pieces
unfoldable pub print : List String → String
print [] = ""
print (piece ∷ pieces) = joined piece (print pieces)

-- strings.Join
unfoldable pub join : String → List String → String
join sep [] = ""
join sep (s ∷ []) = s
join sep (s ∷ t ∷ rest) = print (s ∷ sep ∷ join sep (t ∷ rest) ∷ [])

-- %q, for the names of interfaces that are accepted: none has a character to escape.
unfoldable pub quoted : String → String
unfolding print
quoted s = print ("\"" ∷ s ∷ "\"" ∷ [])

-- for _, x := range xs { … }
unfoldable pub each {ℓ} : {A : Type ℓ} → (A → List String) → List A → List String
each body [] = []
each body (x ∷ xs) = body x ++ each body xs

unfoldable pub when : Bool → List String → List String
when true lines = lines
when false lines = []

-- Zone{}, which a map gives for a name that it has not
abbrev pub no_zone : Zone
no_zone = record {
  interfaces = [];
  ssh = none;
  nfs = none;
  services = [];
  ports = [];
  target = "";
  forward = [];
  masquerade = false;
  redirects = [];
}

unfoldable pub zone_of : List (String × Zone) → String → Zone
zone_of zones name = or_else no_zone (lookup name zones)

-- sortedZoneNames
unfoldable pub sorted_zone_names : List (String × Zone) → List String
sorted_zone_names zones = sort text_le (map (λ z. z.0) zones)

-- sortedStrings
unfoldable pub sorted_strings : List String → List String
sorted_strings items = sort text_le items

-- ifaceSet
unfoldable pub iface_set : List String → String
unfolding print join quoted sorted_strings
iface_set interfaces = print ("{ " ∷ join ", " (map quoted (sorted_strings interfaces)) ∷ " }" ∷ [])

-- sortedIngressRedirects
unfoldable pub sorted_redirects : Ingress → List RedirectRule
sorted_redirects ingress = sort (λ r s. port_le r.port s.port) ingress.redirects

-- The ports that were not seen, in their order.
unfoldable pub new_ports : List RedirectRule → List ℤ → List ℤ
new_ports [] seen = []
new_ports (rule ∷ rules) seen =
    let skipped = new_ports rules seen in
    let added = rule.to_port ∷ new_ports rules (rule.to_port ∷ seen) in
    if any_of (same_port rule.to_port) seen then skipped else added

-- backendPorts
unfoldable pub backend_ports : Ingress → List ℤ
unfolding new_ports sorted_redirects
backend_ports ingress = sort port_le (new_ports (sorted_redirects ingress) [])

-- portSet
unfoldable pub port_set : List ℤ → String
unfolding join
port_set ports = join ", " (map itoa ports)

-- The rules that stand in every input chain, before the guard.
abbrev pub input_head : List String
input_head =
    "  chain input {" ∷ "    type filter hook input priority 0; policy drop;"
    ∷ "    ct state established,related accept" ∷ "    iifname \"lo\" accept"
    ∷ "    iifname \"podman*\" udp dport 53 accept" ∷ "    iifname \"podman*\" tcp dport 53 accept"
    ∷ "    iifname \"podman*\" udp dport 5353 accept"
    ∷ "    meta l4proto ipv6-icmp icmpv6 type { destination-unreachable, packet-too-big, time-exceeded, parameter-problem } accept"
    ∷ "    meta l4proto ipv6-icmp icmpv6 type { nd-router-solicit, nd-router-advert, nd-neighbor-solicit, nd-neighbor-advert } ip6 hoplimit 255 accept"
    ∷ []

unfoldable pub guard_rule : ReachabilityGuard → String
unfolding print quoted
guard_rule guard = print (
    "    iifname "
    ∷ quoted guard.tailscale_interface
    ∷ " tcp dport "
    ∷ itoa guard.port
    ∷ " accept"
    ∷ [])

-- if guard.TailscaleInterface != "" && guard.Port != 0 { … }
unfoldable pub guard_lines : ReachabilityGuard → List String
unfolding guard_rule when
guard_lines guard =
    when (not (guard.tailscale_interface == "") && not (same_port guard.port (pos 0)))
      (guard_rule guard ∷ [])

unfoldable pub zone_chain_name : String → String
zone_chain_name name = joined "zone_" name

unfoldable pub zone_jump : (String → Zone) → String → String
unfolding print iface_set zone_chain_name
zone_jump at name =
    print ("    iifname " ∷ iface_set (at name).interfaces ∷ " jump " ∷ zone_chain_name name ∷ [])

unfoldable pub ingress_input : Option Ingress → List String
unfolding print iface_set port_set backend_ports when
ingress_input none = []
ingress_input (some ingress) = when (not (is_empty_list ingress.redirects)) (
    print (
      "    iifname "
      ∷ iface_set ingress.interfaces
      ∷ " tcp dport { "
      ∷ port_set (backend_ports ingress)
      ∷ " } accept"
      ∷ [])
    ∷ [])

-- writeInputChain
unfoldable pub input_chain :
    (String → Zone) → DesiredState → ReachabilityGuard → List String → List String
unfolding guard_lines zone_jump ingress_input
input_chain at ds guard names =
    input_head
    ++ (guard_lines guard
        ++ (map (zone_jump at) names ++ (ingress_input ds.ingress ++ ("  }" ∷ []))))

unfoldable pub forward_rule : (String → Zone) → Zone → String → String
unfolding print iface_set
forward_rule at zone egress = print (
    "    iifname "
    ∷ iface_set zone.interfaces
    ∷ " oifname "
    ∷ iface_set (at egress).interfaces
    ∷ " accept"
    ∷ [])

unfoldable pub forwards_of : (String → Zone) → String → List String
unfolding forward_rule sorted_strings
forwards_of at name = let zone = at name in map (forward_rule at zone) (sorted_strings zone.forward)

-- writeForwardChain
unfoldable pub forward_chain : (String → Zone) → DesiredState → List String → List String
unfolding when each forwards_of
forward_chain at ds names =
    "  chain forward {"
    ∷ "    type filter hook forward priority 0; policy drop;"
    ∷ "    ct state established,related accept"
    ∷ (when ds.allow_dnat_forward ("    ct status dnat accept" ∷ [])
        ++ (each (forwards_of at) names ++ ("  }" ∷ [])))
