-- ===== src/Env.antt =====
-- What the daemon stands on, as parameters: encoding/json, the system calls under the store
-- directory, systemd, the clock, and the firewall and network executors behind the RPCs.
use ghostd.Prelude.{ℕ, String, ◌≡◌, Bool, true, false, Option, some, List}

-- internal/state/transaction.go, Pending and DomainState. A nil byte slice and an empty one are
-- the same blob: the code tests lengths only, and `omitempty` does not tell them apart either.
pub record Pending (Blob : Type 0) : Type 0 where
  pub applied : Bool
  pub id : String
  pub deadline : ℕ
  pub snapshot : Blob
  pub target : Blob
  pub peer : String

pub record DomainState (Blob : Type 0) : Type 0 where
  pub confirmed : Blob
  pub pending : Option (Pending Blob)

-- internal/overlay/overlay.go, Caller.
pub record Caller (Blob : Type 0) : Type 0 where
  pub login : String
  pub node_id : String
  pub dns_name : String
  pub tags : List String
  pub addresses : List String
  pub capabilities : String → List Blob

-- One entry of the "nftables" list of nft's JSON: its kind, the fields that are read, and the rest.
pub record NftEntry (Body : Type 0) : Type 0 where
  pub kind : String
  pub family : String
  pub table : String
  pub name : String
  pub handle : Option ℕ
  pub body : Body

-- A command of `nft -j`: the table is inet stack_ghostd.
pub data NftCommand (Body : Type 0) : Type 0 where
  add_table delete_table : NftCommand Body
  add_entry : NftEntry Body → NftCommand Body

-- How a system call or a command ends: well, with an error, or with the death of the process.
pub data Fate : Type 0 where
  fine fails dies : Fate

-- Each external step reads the oracles at its own number, so that their answers may vary freely.
pub record Env : Type 1 where
  pub Blob : Type 0
  pub Kernel : Type 0
  pub Script : Type 0
  pub Firewall : Type 0
  pub Netconfig : Type 0
  -- system calls, time and identifiers
  pub fate : ℕ → Fate
  pub clock : ℕ → ℕ
  pub ctx_done : ℕ → Bool
  pub new_lease_id : ℕ → String
  -- what a write that failed or was cut short left in the file
  pub torn : ℕ → Blob → Option Blob
  -- whether a systemd-run that failed left its timer behind all the same
  pub timer_left : ℕ → Bool
  -- encoding/json
  pub empty : Blob
  pub is_empty : Blob → Bool
  pub empty_object : Blob
  pub marshal : DomainState Blob → Blob
  pub unmarshal : Blob → Option (DomainState Blob)
  pub deploy_flag : Blob → Option Bool
  pub report_flag : Blob → Option Bool
  -- the overlay: an error, no node, or a caller
  pub whois : ℕ → String → Option (Option (Caller Blob))
  -- nft(8) and its JSON: a listing, the entries of a document, a document of entries, and a load
  pub Body : Type 0
  pub nft_list : Kernel → Blob
  pub nft_entries : Blob → Option (List (NftEntry Body))
  pub nft_document : List (NftEntry Body) → Blob
  pub nft_load : List (NftCommand Body) → Kernel → Kernel
  -- internal/nft
  pub nft_parse : Blob → Option Firewall
  pub nft_render : Firewall → Option Script
  pub nft_redirect_only : Firewall → Bool
  pub nft_coexists : Blob → Bool
  pub nft_commit : Script → Kernel → Kernel
  -- internal/netconfig
  pub net_parse : Blob → Option Netconfig
  pub net_validate : Netconfig → Bool
  pub net_snapshot : Netconfig → Kernel → Blob
  pub net_apply : Netconfig → Kernel → Kernel
  pub net_rollback : Blob → Kernel → Kernel
  -- the domains that the optional features of this build have registered
  pub registered : List String
  -- what an executor that failed or was cut short did
  pub half_done : ℕ → Kernel → Kernel

-- encoding/json reads back what it wrote, and never writes an empty document.
pub record IsJson (e : Env) : Type 0 where
  pub read_back : (d : DomainState e.Blob) → e.unmarshal (e.marshal d) ≡ some d
  pub written : (d : DomainState e.Blob) → e.is_empty (e.marshal d) ≡ false
  pub nothing : e.is_empty e.empty ≡ true
