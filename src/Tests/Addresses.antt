-- ===== src/Tests/Addresses.antt =====
-- A small network: one scope of two addresses, with one reservation outside of them.
use text.Mathlib.Text.{starts_with}
use ghostd.Prelude.{
  ℕ, suc, ◌+◌, ◌<◌, ◌^◌, String, ◌==◌, ◌≡◌, subst, true, false, Option, none, some, [], ◌∷◌, pos,
  ltb, ltb→lt, nat_eq, if◌then◌else◌, Bool-cases, inl, inr, some_inj,
}
use ghostd.Ledger.Binding.{Binding, active, no_binding}
use ghostd.Ledger.Config.{Config, Scope, DeviceConfig}
use ghostd.Ledger.Indexed.Save.{IsIndexed}
use ghostd.Ledger.Keys.{has_key}
use ghostd.Ledger.Net.{Net}
use ghostd.Ledger.Tx.{Ledger, absent}

-- The hosts of 10.0.0.0/24 that the tests name, by their last byte.
abbrev pub host_of : String → Option ℕ
host_of s =
    if s == "10.0.0.1"
    then some 1
    else if s == "10.0.0.5"
    then some 5
    else if s == "10.0.0.6"
    then some 6
    else if s == "10.0.0.7"
    then some 7
    else none

abbrev pub name_of : ℕ → String
name_of n =
    if nat_eq n 1
    then "10.0.0.1"
    else if nat_eq n 5
    then "10.0.0.5"
    else if nat_eq n 6
    then "10.0.0.6"
    else "10.0.0.7"

abbrev pub eighty : String → ℕ → Option ℕ
eighty s bits = if ltb 80 (2 ^ bits) then some 80 else none

abbrev pub net : Net
net = record {
  Addr = ℕ;
  parse_addr = host_of;
  print_addr = name_of;
  is4 = λ _. true;
  is6 = λ _. false;
  is4in6 = λ _. false;
  is_unspecified = λ a. nat_eq a 0;
  is_multicast = λ _. false;
  has_zone = λ _. false;
  same_addr = nat_eq;
  is_after = λ a b. ltb b a;
  next = suc;
  as4 = λ a. a;
  from4 = λ a. a;
  Prefix = ℕ;
  parse_prefix = λ s. if s == "10.0.0.0/24" then some 24 else none;
  masked = λ p. p;
  same_prefix = nat_eq;
  prefix_addr = λ _. 0;
  bits = λ p. p;
  in_prefix = λ _ a. ltb a 256;
  overlaps = λ _ _. true;
  parse_mac = λ s.
      if s == "02:00:00:00:00:01"
      then some (2 ∷ 0 ∷ 0 ∷ 0 ∷ 0 ∷ 1 ∷ [])
      else if s == "02:00:00:00:00:02"
      then some (2 ∷ 0 ∷ 0 ∷ 0 ∷ 0 ∷ 2 ∷ [])
      else none;
  print_mac = λ m. elim m [
    | a ∷ b ∷ c ∷ d ∷ f ∷ g ∷ [] ↦ if nat_eq g 1 then "02:00:00:00:00:01" else "02:00:00:00:00:02"
    | _ ↦ ""
  ];
  digest = λ _. "0123456789abcdef0123456789abcdef";
  to_valid_utf8 = λ s. s;
  to_lower = λ s. s;
  parse_uint = eighty;
  is_abs = λ s. starts_with s "/";
  clean = λ s. s;
}

pub eighty-lt : (s : String) (bits n : ℕ) → eighty s bits ≡ some n → n < 2 ^ bits
eighty-lt s bits n h = elim (Bool-cases (ltb 80 (2 ^ bits))) [
  | inl fits ↦ subst (λ k. k < 2 ^ bits) (some_inj (rw fits at h)) (ltb→lt 80 (2 ^ bits) fits)
  | inr not_fits ↦ absurd (cc (rw not_fits at h))
]

abbrev pub office : Scope
office = record {
  id = "office";
  interface = "eth0";
  subnet = "10.0.0.0/24";
  server = "10.0.0.1";
  start = "10.0.0.5";
  end = "10.0.0.6";
  router = "10.0.0.1";
  zone = "office.lan";
  lease_seconds = pos 3600;
  enabled = true;
  reservations =
      record { client = "mac:02:00:00:00:00:02"; address = "10.0.0.7"; device = "printer" } ∷ [];
  preferred_seconds = pos 0;
  relay = none;
  ra = none;
  boot = none;
  dns_servers = [];
  options = [];
  pd = none;
}

abbrev pub printer : DeviceConfig
printer = record {
  aliases = "laser" ∷ [];
  node_ids = [];
  id = "printer";
  name = "printer";
  node_id = "n7";
}

abbrev pub config : Config
config = record { scopes = office ∷ []; devices = printer ∷ []; tftp = none }

abbrev pub new_ledger : Ledger
new_ledger = record {
  bindings = λ _ _. absent;
  index = [];
  sequence = 0;
  events = [];
  associations = λ _. none;
  dns_config = "";
}

abbrev pub clock : ℕ → ℕ
clock n = 1000 + n

pub new_ledger-IsIndexed : IsIndexed new_ledger
unfolding has_key
new_ledger-IsIndexed = record {
  placed = λ s a b h. absurd (cc h);
  named = λ s a b h. absurd (cc h);
  complete = λ s a b k h. absurd (cc h);
  sound = λ k h. absurd (cc h);
}

abbrev pub lease : Binding
lease = record no_binding {
  scope = "office";
  address = "10.0.0.5";
  client = "mac:02:00:00:00:00:01";
  mac = "02:00:00:00:00:01";
  device = "device-0123456789abcdef";
  name = "device-0123456789abcdef";
  claimed_name = "laptop";
  state = active;
  origin = "dhcpv4";
  start = 1000;
  end = 4600;
}
