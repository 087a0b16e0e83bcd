-- ===== src/Nft/Hooks.antt =====
-- internal/nft/render.go and output.go: the lines of the chains beside input and forward.
use ghostd.Nft.Chains.{print, quoted, each, when, sorted_strings, sorted_redirects, zone_chain_name}
use ghostd.Nft.Names.{equal_fold}
use ghostd.Nft.Policy.{PortRule, RedirectRule, SshRule, NfsRule, Zone, Ingress, DesiredState}
use ghostd.Nft.Sorting.{itoa}
use ghostd.Nft.Validate.{is_empty_list}
use ghostd.Prelude.{
  pos, String, ◌==◌, not, Option, none, some, List, [], ◌∷◌, ◌++◌, map, lookup, or_else,
  if◌then◌else◌,
}

unfoldable pub redirect_rule : String → RedirectRule → String
unfolding print quoted
redirect_rule iface rule = print (
    "    iifname "
    ∷ quoted iface
    ∷ " fib daddr type local "
    ∷ rule.proto
    ∷ " dport "
    ∷ itoa rule.port
    ∷ " redirect to :"
    ∷ itoa rule.to_port
    ∷ [])

unfoldable pub dnat_rule : String → RedirectRule → String
unfolding print quoted
dnat_rule iface rule = print (
    "    iifname "
    ∷ quoted iface
    ∷ " fib daddr type local tcp dport "
    ∷ itoa rule.port
    ∷ " dnat to :"
    ∷ itoa rule.to_port
    ∷ [])

unfoldable pub redirects_in : (String → Zone) → String → List String
unfolding each redirect_rule sorted_strings
redirects_in at name =
    let zone = at name in
    each (λ iface. map (redirect_rule iface) zone.redirects) (sorted_strings zone.interfaces)

unfoldable pub ingress_prerouting : Option Ingress → List String
unfolding each dnat_rule sorted_strings sorted_redirects
ingress_prerouting none = []
ingress_prerouting (some ingress) =
    each (λ iface. map (dnat_rule iface) (sorted_redirects ingress))
      (sorted_strings ingress.interfaces)

-- writePreroutingChain
unfoldable pub prerouting_chain : (String → Zone) → DesiredState → List String → List String
unfolding each redirects_in ingress_prerouting
prerouting_chain at ds names =
    "  chain prerouting {"
    ∷ "    type nat hook prerouting priority -100;"
    ∷ (each (redirects_in at) names ++ (ingress_prerouting ds.ingress ++ ("  }" ∷ [])))

-- ingressOutputDestinations
abbrev pub output_destinations : List (String × String)
output_destinations =
    ("ip", "100.64.0.0/10")
    ∷ ("ip6", "fd7a:115c:a1e0::/48")
    ∷ ("ip", "{ 10.0.0.0/8, 172.16.0.0/12, 192.168.0.0/16 }")
    ∷ ("ip6", "fc00::/7")
    ∷ []

output_redirect : RedirectRule → String × String → String
unfolding print
output_redirect rule (family, prefix) = print (
    "    fib daddr type local "
    ∷ family
    ∷ " daddr "
    ∷ prefix
    ∷ " tcp dport "
    ∷ itoa rule.port
    ∷ " redirect to :"
    ∷ itoa rule.to_port
    ∷ [])

-- writeIngressOutputChain
unfoldable pub ingress_output_chain : Option Ingress → List String
unfolding each when output_redirect sorted_redirects
ingress_output_chain none = []
ingress_output_chain (some ingress) = when (not (is_empty_list ingress.redirects)) (
    "  chain output_redirect {"
    ∷ "    type nat hook output priority -100;"
    ∷ (each (λ rule. map (output_redirect rule) output_destinations) (sorted_redirects ingress)
        ++ ("  }" ∷ [])))

masquerades : (String → Zone) → String → List String
unfolding print quoted when sorted_strings
masquerades at name =
    let zone = at name in
    when zone.masquerade (
      map (λ iface. print ("    oifname " ∷ quoted iface ∷ " masquerade" ∷ []))
        (sorted_strings zone.interfaces))

-- writePostroutingChain
unfoldable pub postrouting_chain : (String → Zone) → List String → List String
unfolding each masquerades
postrouting_chain at names =
    "  chain postrouting {"
    ∷ "    type nat hook postrouting priority 100;"
    ∷ (each (masquerades at) names ++ ("  }" ∷ []))

ssh_lines : Option SshRule → List String
unfolding print
ssh_lines none = []
ssh_lines (some ssh) = print ("    tcp dport " ∷ itoa ssh.port ∷ " accept" ∷ []) ∷ []

redirected : RedirectRule → String
unfolding print
redirected rule = print (
    "    ct status dnat meta l4proto "
    ∷ rule.proto
    ∷ " ct original proto-dst "
    ∷ itoa rule.port
    ∷ " "
    ∷ rule.proto
    ∷ " dport "
    ∷ itoa rule.to_port
    ∷ " accept"
    ∷ [])

nfs_lines : Option NfsRule → List String
unfolding print sorted_strings
nfs_lines none = []
nfs_lines (some nfs) =
    map (λ source. print ("    ip saddr " ∷ source ∷ " tcp dport { 111, 2049, 20048 } accept" ∷ []))
      (sorted_strings nfs.exports)

-- serviceReplyPorts
abbrev pub service_reply_ports : List (String × List PortRule)
service_reply_ports = ("mdns", record { port = pos 5353; proto = "udp" } ∷ []) ∷ []

-- The rules of builtinServices.
abbrev pub service_ports : List (String × List PortRule)
service_ports =
    ("mdns", record { port = pos 5353; proto = "udp" } ∷ [])
    ∷ ("tftp", record { port = pos 69; proto = "udp" } ∷ [])
    ∷ (
      "dns",
      record { port = pos 53; proto = "tcp" } ∷ record { port = pos 53; proto = "udp" } ∷ [],
    )
    ∷ ("dhcp", record { port = pos 67; proto = "udp" } ∷ [])
    ∷ ("dhcpv6-client", record { port = pos 546; proto = "udp" } ∷ [])
    ∷ ("http", record { port = pos 80; proto = "tcp" } ∷ [])
    ∷ ("https", record { port = pos 443; proto = "tcp" } ∷ [])
    ∷ []

unfoldable pub opened_port : PortRule → String
unfolding print
opened_port rule = print ("    " ∷ rule.proto ∷ " dport " ∷ itoa rule.port ∷ " accept" ∷ [])

reply_port : PortRule → String
unfolding print
reply_port rule = print (
    "    "
    ∷ rule.proto
    ∷ " sport "
    ∷ itoa rule.port
    ∷ " "
    ∷ rule.proto
    ∷ " dport 1024-65535 accept"
    ∷ [])

service_lines : String → List String
unfolding opened_port reply_port lookup
service_lines svc =
    map reply_port (or_else [] (lookup svc service_reply_ports))
    ++ map opened_port (or_else [] (lookup svc service_ports))

zone_rules : Zone → List String
unfolding ssh_lines redirected nfs_lines service_lines opened_port each when sorted_strings
zone_rules zone =
    ssh_lines zone.ssh
    ++ (map redirected zone.redirects
        ++ (nfs_lines zone.nfs
            ++ (each service_lines (sorted_strings zone.services)
                ++ (map opened_port zone.ports
                    ++ when (equal_fold zone.target "ACCEPT") ("    accept" ∷ [])))))

unfoldable pub zone_header : String → String
unfolding zone_chain_name
zone_header name = print ("  chain " ∷ zone_chain_name name ∷ " {" ∷ [])

-- writeZoneChain, which never returns an error
unfoldable pub zone_chain : (String → Zone) → String → List String
unfolding zone_rules zone_header
zone_chain at name =
    zone_header name
    ∷ ((if name == "trusted" then "    accept" ∷ [] else zone_rules (at name)) ++ ("  }" ∷ []))
