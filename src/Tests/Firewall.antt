-- ===== src/Tests/Firewall.antt =====
-- A policy of two zones with an ingress.
use ghostd.Prelude.{
  ◌≡◌, refl, pos, true, false, none, some, [], ◌∷◌, ◌==◌, lookup, contains, if◌then◌else◌,
}
use ghostd.Nft.Policy.{Zone, DesiredState}
use ghostd.Nft.Names.{
  valid_interface, valid_zone_name, equal_fold, valid_port, all_codes, all_within, is_word,
  is_letter, is_interface_char, same_port,
}
use ghostd.Nft.Validate.{NetIp, validate}
use ghostd.Nft.Validate.Exclusive.{IsEnforceable, validate-IsEnforceable}

-- One address is known, 10.0.0.1.
abbrev pub one_address : NetIp
one_address = record {
  Addr = Unit;
  parse_addr = λ s. if s == "10.0.0.1" then some tt else none;
  parse_prefix = λ s. if s == "10.0.0.0/8" then some tt else none;
  is4 = λ _. true;
  has_zone = λ _. false;
}

abbrev pub lan : Zone
lan = record {
  interfaces = "eth0" ∷ "br-lan" ∷ [];
  ssh = some (record { port = pos 22 });
  nfs = some (record { exports = "10.0.0.0/8" ∷ "10.0.0.1" ∷ [] });
  services = "dns" ∷ [];
  ports = record { port = pos 8080; proto = "tcp" } ∷ [];
  target = "drop";
  forward = "wan" ∷ [];
  masquerade = false;
  redirects = record { port = pos 80; to_port = pos 8080; proto = "tcp" } ∷ [];
}

abbrev pub wan : Zone
wan = record {
  interfaces = "eth1" ∷ [];
  ssh = none;
  nfs = none;
  services = [];
  ports = [];
  target = "";
  forward = [];
  masquerade = true;
  redirects = [];
}

abbrev pub policy : DesiredState
policy = record {
  redirect_only = false;
  zones = ("lan", lan) ∷ ("wan", wan) ∷ [];
  ingress = some (record {
    interfaces = "eth1" ∷ [];
    redirects = record { port = pos 443; to_port = pos 8443; proto = "tcp" } ∷ [];
  });
  output = some (record {
    policy = "ACCEPT";
    established_related = true;
    loopback = true;
    rules =
        record {
          proto = "udp";
          port = pos 53;
          family = "ip";
          interface_name = "eth1";
          destination = "10.0.0.1";
        }
        ∷ [];
  });
  allow_dnat_forward = false;
}

policy_accepted : validate one_address policy ≡ true
unfolding validate valid_port valid_interface all_within is_interface_char is_word is_letter
    same_port valid_zone_name all_codes equal_fold contains lookup
policy_accepted = refl

validate-IsEnforceable_example : IsEnforceable policy
validate-IsEnforceable_example = validate-IsEnforceable one_address policy policy_accepted
