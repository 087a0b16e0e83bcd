-- ===== src/Nft/Render.antt =====
-- internal/nft/render.go and output.go: the script that Render gives to nft.
pub mod Accepted
pub mod Members
pub mod Forwards
pub mod Backends
pub mod Order
pub mod Reach
pub mod Spelled
use text.Mathlib.Text.{find?}
use ghostd.Nft.Chains.{
  ReachabilityGuard, print, quoted, each, when, zone_of, sorted_zone_names, iface_set, input_chain,
  forward_chain,
}
use ghostd.Nft.Hooks.{prerouting_chain, ingress_output_chain, postrouting_chain, zone_chain}
use ghostd.Nft.Names.{valid_interface, valid_port}
use ghostd.Nft.Policy.{Zone, OutputRule, OutputPolicy, DesiredState}
use ghostd.Nft.Sorting.{itoa}
use ghostd.Nft.Validate.{NetIp, validate, is_empty_list}
use ghostd.Prelude.{
  String, ◌==◌, Bool, true, false, ◌&&◌, ◌||◌, not, Option, none, some, List, [], ◌∷◌, ◌++◌, joined,
  if◌then◌else◌,
}

-- strings.ToLower of the two policies that are accepted
lower_policy : String → String
lower_policy policy =
    if policy == "DROP" then "drop" else if policy == "ACCEPT" then "accept" else policy

output_rule : OutputRule → String
unfolding print quoted
output_rule rule = print (
    "    "
    ∷ (if rule.family == ""
        then ""
        else if rule.family == "ip6"
        then "meta nfproto ipv6 "
        else "meta nfproto ipv4 ")
    ∷ (if rule.interface_name == ""
        then ""
        else print ("oifname " ∷ quoted rule.interface_name ∷ " " ∷ []))
    ∷ (if rule.destination == ""
        then ""
        else print (
            elim (find? rule.destination ":") [ none ↦ "ip" | some _ ↦ "ip6" ]
            ∷ " daddr "
            ∷ rule.destination
            ∷ " "
            ∷ []))
    ∷ rule.proto
    ∷ " dport "
    ∷ itoa rule.port
    ∷ " accept"
    ∷ [])

output_rules : List OutputRule → List String
unfolding output_rule
output_rules [] = []
output_rules (rule ∷ rules) = output_rule rule ∷ output_rules rules

-- writeOutputChain
unfoldable pub output_chain : Option OutputPolicy → List String
unfolding print lower_policy when output_rules
output_chain none = []
output_chain (some output) =
    "  chain output {"
    ∷ print
        ("    type filter hook output priority 0; policy " ∷ lower_policy output.policy ∷ ";" ∷ [])
    ∷ (when output.established_related ("    ct state established,related accept" ∷ [])
        ++ (when output.loopback ("    oifname \"lo\" accept" ∷ [])
            ++ (output_rules output.rules ++ ("  }" ∷ []))))

-- The interfaces of a zone, once for each time that it lists tftp.
unfoldable pub tftp_interfaces : List String → List String → List String
tftp_interfaces interfaces [] = []
tftp_interfaces interfaces (svc ∷ services) =
    let rest = tftp_interfaces interfaces services in
    if svc == "tftp" then interfaces ++ rest else rest

-- writeTFTPHelper
unfoldable pub tftp_helper : (String → Zone) → List String → List String
unfolding print each tftp_interfaces iface_set when
tftp_helper at names =
    let ifaces = each (λ name. tftp_interfaces (at name).interfaces (at name).services) names in
    when (not (is_empty_list ifaces)) (
      "  ct helper ghost_tftp {"
      ∷ "    type \"tftp\" protocol udp"
      ∷ "  }"
      ∷ "  chain tftp_helper {"
      ∷ "    type filter hook prerouting priority -300; policy accept;"
      ∷ print
          ("    iifname " ∷ iface_set ifaces ∷ " udp dport 69 ct helper set \"ghost_tftp\"" ∷ [])
      ∷ "  }"
      ∷ [])

abbrev pub head_lines : List String
head_lines =
    "# Atomic replacement: ensure the table exists, delete it, then recreate it below."
    ∷ "# nft applies this entire file as one transaction; other tables are untouched."
    ∷ "add table inet stack_ghostd" ∷ "delete table inet stack_ghostd" ∷ "table inet stack_ghostd {"
    ∷ []

-- What Render writes between the head and the end of the table; `at` is the map of the zones, and
-- `names` its sorted names.
unfoldable pub write_chains :
    (String → Zone) → List String → DesiredState → ReachabilityGuard → List String
unfolding tftp_helper input_chain forward_chain output_chain prerouting_chain ingress_output_chain
    postrouting_chain each zone_chain
write_chains at names ds guard =
    if ds.redirect_only
    then prerouting_chain at ds names
    else tftp_helper at names
      ++ (input_chain at ds guard names
          ++ (forward_chain at ds names
              ++ (output_chain ds.output
                  ++ (prerouting_chain at ds names
                      ++ (ingress_output_chain ds.ingress
                          ++ (postrouting_chain at names ++ each (zone_chain at) names))))))

unfoldable pub chain_lines : DesiredState → ReachabilityGuard → List String
unfolding write_chains zone_of sorted_zone_names
chain_lines ds guard = write_chains (zone_of ds.zones) (sorted_zone_names ds.zones) ds guard

-- b.String(), where each line has its end
unfoldable pub file_of : List String → String
file_of [] = ""
file_of (line ∷ lines) = joined line (joined "\n" (file_of lines))

-- Render
unfoldable pub render_lines : NetIp → DesiredState → ReachabilityGuard → Option (List String)
unfolding chain_lines
render_lines ip ds guard =
    if not (valid_interface guard.tailscale_interface) || not (valid_port guard.port)
    then none
    else if not (validate ip ds)
    then none
    else some (head_lines ++ (chain_lines ds guard ++ ("}" ∷ [])))

unfoldable pub render : NetIp → DesiredState → ReachabilityGuard → Option String
unfolding render_lines file_of
render ip ds guard = elim (render_lines ip ds guard) [
  | none ↦ none
  | some lines ↦ some (file_of lines)
]
