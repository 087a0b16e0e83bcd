-- ===== src/Nft/Policy.antt =====
-- internal/nft/desiredstate.go: the policy of the firewall domain. A map is an association list, in
-- any order; a pointer is an Option.
use ghostd.Prelude.{ℤ, String, Bool, Option, List}

pub record PortRule : Type 0 where
  pub port : ℤ
  pub proto : String

-- One listener published through another port of the host.
pub record RedirectRule : Type 0 where
  pub port : ℤ
  pub to_port : ℤ
  pub proto : String

pub record SshRule : Type 0 where
  pub port : ℤ

pub record NfsRule : Type 0 where
  pub exports : List String

pub record Zone : Type 0 where
  pub interfaces : List String
  pub ssh : Option SshRule
  pub nfs : Option NfsRule
  pub services : List String
  pub ports : List PortRule
  pub target : String
  pub forward : List String
  pub masquerade : Bool
  pub redirects : List RedirectRule

pub record Ingress : Type 0 where
  pub interfaces : List String
  pub redirects : List RedirectRule

pub record OutputRule : Type 0 where
  pub proto : String
  pub port : ℤ
  pub family : String
  pub interface_name : String
  pub destination : String

pub record OutputPolicy : Type 0 where
  pub policy : String
  pub established_related : Bool
  pub loopback : Bool
  pub rules : List OutputRule

pub record DesiredState : Type 0 where
  pub redirect_only : Bool
  pub zones : List (String × Zone)
  pub ingress : Option Ingress
  pub output : Option OutputPolicy
  pub allow_dnat_forward : Bool
