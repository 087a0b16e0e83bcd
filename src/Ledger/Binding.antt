-- ===== src/Ledger/Binding.antt =====
-- internal/addressbook/store.go: bindings and events.
use ghostd.Prelude.{ℕ, String, Bool, true, false}

-- The texts that the code writes to Binding.State; `unset` is the empty one of a zero binding.
pub data LeaseState : Type 0 where
  unset active offered declined released expired : LeaseState

-- liveState
abbrev pub is_live : LeaseState → Bool
is_live active = true
is_live offered = true
is_live declined = true
is_live _ = false

abbrev pub is_active : LeaseState → Bool
is_active active = true
is_active _ = false

abbrev pub is_offered : LeaseState → Bool
is_offered offered = true
is_offered _ = false

abbrev pub is_declined : LeaseState → Bool
is_declined declined = true
is_declined _ = false

pub record Binding : Type 0 where
  pub duid : String
  pub iaid : String
  pub preferred_end : ℕ
  pub scope : String
  pub address : String
  pub client : String
  pub mac : String
  pub device : String
  pub name : String
  pub claimed_name : String
  pub state : LeaseState
  pub origin : String
  pub start : ℕ
  pub end : ℕ
  pub node_id : String
  pub evidence : String
  pub via : String

-- Binding{}
abbrev pub no_binding : Binding
no_binding = record {
  duid = "";
  iaid = "";
  preferred_end = 0;
  scope = "";
  address = "";
  client = "";
  mac = "";
  device = "";
  name = "";
  claimed_name = "";
  state = unset;
  origin = "";
  start = 0;
  end = 0;
  node_id = "";
  evidence = "";
  via = "";
}

-- The observation of a sighting, which no operation here writes, is left out.
pub record Event : Type 0 where
  pub message : String
  pub id : ℕ
  pub time : ℕ
  pub kind : String
  pub binding : Binding

-- What an operator has said of a client; the history, which allocation does not read, is left out.
pub record Association : Type 0 where
  pub client : String
  pub device : String
  pub name : String
  pub node_id : String
  pub reason : String
  pub updated : ℕ
