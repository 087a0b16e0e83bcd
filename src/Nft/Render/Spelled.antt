-- ===== src/Nft/Render/Spelled.antt =====
-- internal/nft/render.go: the lines of a script that the theorems speak of, as nft reads them.
use ghostd.Nft.Chains.{print, join}
use ghostd.Nft.Sorting.{text_le, sort, itoa}
use ghostd.Prelude.{ℤ, String, List, [], ◌∷◌, map, joined}

-- A text between quotes.
abbrev pub in_quotes : String → String
unfolding print
in_quotes s = print ("\"" ∷ s ∷ "\"" ∷ [])

-- The names of interfaces in order, as a set of nft.
abbrev pub in_braces : List String → String
in_braces interfaces =
    print ("{ " ∷ join ", " (map in_quotes (sort text_le interfaces)) ∷ " }" ∷ [])

-- What comes in by the interface for the TCP port is accepted.
abbrev pub reach_text : String → ℤ → String
reach_text interface_name port =
    print ("    iifname " ∷ in_quotes interface_name ∷ " tcp dport " ∷ itoa port ∷ " accept" ∷ [])

-- What comes in by the interfaces goes to the chain of the zone.
abbrev pub jump_text : List String → String → String
jump_text interfaces zone =
    print ("    iifname " ∷ in_braces interfaces ∷ " jump " ∷ joined "zone_" zone ∷ [])

-- The first line of the chain of the zone.
abbrev pub header_text : String → String
header_text zone = print ("  chain " ∷ joined "zone_" zone ∷ " {" ∷ [])

-- What comes in by the first interfaces and leaves by the second ones is accepted.
abbrev pub forward_text : List String → List String → String
forward_text incoming outgoing =
    print ("    iifname " ∷ in_braces incoming ∷ " oifname " ∷ in_braces outgoing ∷ " accept" ∷ [])

-- What comes in by the interfaces for one of the TCP ports is accepted.
abbrev pub open_text : List String → List ℤ → String
open_text interfaces ports = print (
    "    iifname "
    ∷ in_braces interfaces
    ∷ " tcp dport { "
    ∷ join ", " (map itoa ports)
    ∷ " } accept"
    ∷ [])

-- The first lines of the input chain: what they accept depends on no policy.
abbrev pub input_start : List String
input_start =
    "  chain input {" ∷ "    type filter hook input priority 0; policy drop;"
    ∷ "    ct state established,related accept" ∷ "    iifname \"lo\" accept"
    ∷ "    iifname \"podman*\" udp dport 53 accept" ∷ "    iifname \"podman*\" tcp dport 53 accept"
    ∷ "    iifname \"podman*\" udp dport 5353 accept"
    ∷ "    meta l4proto ipv6-icmp icmpv6 type { destination-unreachable, packet-too-big, time-exceeded, parameter-problem } accept"
    ∷ "    meta l4proto ipv6-icmp icmpv6 type { nd-router-solicit, nd-router-advert, nd-neighbor-solicit, nd-neighbor-advert } ip6 hoplimit 255 accept"
    ∷ []
