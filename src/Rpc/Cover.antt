-- ===== src/Rpc/Cover.antt =====
-- How a domain stands around a mutation: at rest, or with a lease that holds its snapshot.
use ghostd.Prelude.{ℕ, ◌+◌, ◌*◌, String, ◌≡◌, Bool, none, some, List, ◌∷◌, ◌⊎◌, pos_part}
use ghostd.Env.{Env, Pending}
use ghostd.Effect.{Host, Timer}
use ghostd.State.Leases.{second, revert_timer}
use ghostd.State.Records.{stored}
use ghostd.Rpc.Server.{ApplyRequest}

-- The lease that a request asks for.
abbrev pub timeout_of : {e : Env} → ApplyRequest e → ℕ
timeout_of req = pos_part req.dead_man_switch_seconds * second

module _ {e : Env} (domain legacy : String) (confirmed : e.Blob) where
  -- No lease is pending, and the kernel is as it was.
  pub record Quiet (k : e.Kernel) (h : Host e) : Type 0 where
    pub record_is : stored domain legacy h ≡ some (record { confirmed = confirmed; pending = none })
    pub kernel : h.kernel ≡ k

  -- A lease is pending, with a snapshot to go back to.
  pub record Armed (IsSnapshot : e.Blob → Type 0) (h : Host e) : Type 0 where
    pub lease : Pending e.Blob
    pub record_is :
        stored domain legacy h ≡ some (record { confirmed = confirmed; pending = some lease })
    pub snapshot : IsSnapshot lease.snapshot

  abbrev pub Covered : e.Kernel → (e.Blob → Type 0) → Host e → Type 0
  Covered k IsSnapshot h = Quiet k h ⊎ Armed IsSnapshot h

  -- The lease of one request is pending and its timer armed.
  pub record Leased (IsSnapshot : e.Blob → Type 0) (addr : String) (req : ApplyRequest e)
      (applied : Bool) (id : String) (h : Host e) : Type 0 where
    pub begun : ℕ
    pub snapshot : e.Blob
    pub is_snapshot : IsSnapshot snapshot
    pub record_is :
        stored domain legacy h
        ≡ some (record {
          confirmed = confirmed;
          pending = some (record {
            applied = applied;
            id = id;
            deadline = e.clock begun + timeout_of req;
            snapshot = snapshot;
            target = req.desired_state_json;
            peer = addr;
          });
        })
    pub others : List Timer
    pub timer : h.timers ≡ revert_timer id domain (timeout_of req) ∷ others

  pub Leased-Armed :
      {IsSnapshot : e.Blob → Type 0} {addr : String} {req : ApplyRequest e} {applied : Bool}
      {id : String} {h : Host e}
      → Leased IsSnapshot addr req applied id h
      → Armed IsSnapshot h
  Leased-Armed l = record { lease = _; record_is = l.record_is; snapshot = l.is_snapshot }
