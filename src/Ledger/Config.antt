-- ===== src/Ledger/Config.antt =====
-- internal/addressbook/config.go: the configuration of the scopes, and what is looked up in it.
use ghostd.Prelude.{
  String, ◌==◌, Bool, true, false, ◌||◌, not, Option, none, some, List, [], ◌∷◌, ℤ, if◌then◌else◌,
  map, contains,
}
use ghostd.Ledger.Net.{Net}

pub record DhcpOption : Type 0 where
  pub code : ℤ
  pub kind : String
  pub value : List String

pub record BootConfig : Type 0 where
  pub always : Bool
  pub file : String
  pub next_server : String

pub record TftpConfig : Type 0 where
  pub root : String
  pub interfaces : List String

pub record RelayConfig : Type 0 where
  pub peer : String
  pub link : String

pub record RaConfig : Type 0 where
  pub slaac : Bool
  pub router_lifetime : ℤ
  pub interval : ℤ

pub record PdConfig : Type 0 where
  pub prefix : String
  pub length : ℤ
  pub route : Bool

pub record Reservation : Type 0 where
  pub client : String
  pub address : String
  pub device : String

pub record DeviceConfig : Type 0 where
  pub aliases : List String
  pub node_ids : List String
  pub id : String
  pub name : String
  pub node_id : String

pub record Scope : Type 0 where
  pub id : String
  pub interface : String
  pub subnet : String
  pub server : String
  pub start : String
  pub end : String
  pub router : String
  pub zone : String
  pub lease_seconds : ℤ
  pub enabled : Bool
  pub reservations : List Reservation
  pub preferred_seconds : ℤ
  pub relay : Option RelayConfig
  pub ra : Option RaConfig
  pub boot : Option BootConfig
  pub dns_servers : List String
  pub options : List DhcpOption
  pub pd : Option PdConfig

pub record Config : Type 0 where
  pub scopes : List Scope
  pub devices : List DeviceConfig
  pub tftp : Option TftpConfig

unfoldable pub find_scope_in : String → List Scope → Option Scope
find_scope_in id [] = none
find_scope_in id (s ∷ ss) = let rest = find_scope_in id ss in if s.id == id then some s else rest

-- Config.Scope
unfoldable pub find_scope : Config → String → Option Scope
unfolding find_scope_in
find_scope c id = find_scope_in id c.scopes

unfoldable pub find_device_in : String → List DeviceConfig → Option DeviceConfig
find_device_in id [] = none
find_device_in id (d ∷ ds) = let rest = find_device_in id ds in if d.id == id then some d else rest

-- Config.Device
unfoldable pub find_device : Config → String → Option DeviceConfig
unfolding find_device_in
find_device c id = find_device_in id c.devices

-- DeviceConfig.HasNode
unfoldable pub has_node : DeviceConfig → String → Bool
has_node d id = if id == "" then false else if d.node_id == id then true else contains d.node_ids id

-- DeviceConfig.DeclaresNodes
unfoldable pub declares_nodes : DeviceConfig → Bool
declares_nodes d = not (d.node_id == "") || elim d.node_ids [ [] ↦ false | n ∷ ns ↦ true ]

-- DeviceConfig.HasAlias
unfoldable pub has_alias : DeviceConfig → String → Bool
has_alias d name = contains d.aliases name

disable : Scope → Scope
disable s = record s { enabled = false }

-- disabled
unfoldable pub disabled : Config → Config
unfolding disable
disabled c = record c { scopes = map disable c.scopes }

module _ (e : Net) where
  -- Scope.Is6
  unfoldable pub scope_is6 : Scope → Bool
  scope_is6 s = elim (e.parse_prefix s.subnet) [ none ↦ false | some p ↦ e.is6 (e.prefix_addr p) ]
