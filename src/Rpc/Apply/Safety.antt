-- ===== src/Rpc/Apply/Safety.antt =====
-- The part of applyFirewall and applyNetconfig that is common, from begin to finishApply.
use ghostd.Prelude.{String, Bool, true, false, Option, inr}
use ghostd.Env.{Env, IsJson}
use ghostd.Effect.{Host, Code, internal, ◌>>=◌, ◌>>◌, recode, advance}
use ghostd.Effect.Triple.{Triple, Triple-bind, Triple-recode, Triple-weaken, Triple-sys}
use ghostd.State.Records.{IsPlaced}
use ghostd.Rpc.Server.{Server, ApplyRequest, legacy_name}
use ghostd.Rpc.Executors.{enact}
use ghostd.Rpc.Cover.{Quiet, Covered, Leased, Leased-Armed}
use ghostd.Rpc.Lease.{begin, finish_apply}
use ghostd.Rpc.Lease.Begin.{Triple-begin}
use ghostd.Rpc.Lease.Finish.{Triple-finish}

module _ {e : Env} (json : IsJson e) (s : Server e) (addr : String) (req : ApplyRequest e)
    (placed : IsPlaced e req.domain (legacy_name s req.domain)) (confirmed : e.Blob) (k : e.Kernel)
    (IsSnapshot : e.Blob → Type 0) where
  abbrev legacy : String
  legacy = legacy_name s req.domain

  abbrev AtRest : Host e → Type 0
  AtRest = Quiet req.domain legacy confirmed k

  abbrev Ended : Option Code → Host e → Type 0
  Ended o h = Covered req.domain legacy confirmed k IsSnapshot h

  abbrev Holds : Bool → String → Host e → Type 0
  Holds = Leased req.domain legacy confirmed IsSnapshot addr req

  pub AtRest-advance : (h : Host e) → AtRest h → AtRest (advance h)
  AtRest-advance h q = record { record_is = q.record_is; kernel = q.kernel }

  -- Whatever it does to the kernel, an executor leaves the lease alone.
  Triple-enact :
      (f : e.Kernel → e.Kernel) (id : String)
      → Triple (Holds false id) (enact f) (λ _. Holds false id) (λ _. Holds false id)
  unfolding enact
  Triple-enact f id = Triple-sys _ _ (λ h l. kept _ h l) (λ o h l. kept _ h l)
    where
      kept :
          (g : e.Kernel) (h : Host e)
          → Holds false id h
          → Holds false id (advance (record h { kernel = g }))
      kept g h l = record {
        begun = l.begun;
        snapshot = l.snapshot;
        is_snapshot = l.is_snapshot;
        record_is = l.record_is;
        others = l.others;
        timer = l.timer;
      }

  -- From the snapshot on, the two core domains go the same way.
  pub Triple-mutate :
      (f : e.Kernel → e.Kernel) (snapshot : e.Blob)
      → IsSnapshot snapshot
      → Triple AtRest
          (do
            id ← begin s addr req snapshot
            recode internal (enact f)
            finish_apply s req.domain id)
          (λ id. Holds true id)
          Ended
  Triple-mutate f snapshot is_snapshot =
      Triple-bind (λ id. Holds false id) _ _
        (Triple-weaken AtRest _ _ _
          (Triple-begin json s addr req placed confirmed k IsSnapshot snapshot is_snapshot)
          (λ h q. q) (λ _ h q. q.0) (λ o h q. q))
        λ id.
          Triple-bind (λ _. Holds false id) _ _
            (Triple-recode (Holds false id) internal _ (Triple-enact f id)
              (λ o h l. inr (Leased-Armed _ _ _ l)))
            λ _.
              Triple-weaken (Holds false id) _ _ _
                (Triple-finish json s addr req placed confirmed IsSnapshot id) (λ h l. l)
                (λ id' h q. rw q.0 q.1) (λ o h a. inr a)
