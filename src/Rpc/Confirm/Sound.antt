-- ===== src/Rpc/Confirm/Sound.antt =====
-- Confirm in internal/rpc/server.go, from the connection to the record.
use ghostd.Prelude.{
  String, ◌==◌, ◌≡◌, sym, ◌∙◌, Option, none, some, ◌⊎◌, inl, inr, if◌then◌else◌, List, [], ◌∷◌, All,
  Bool-cases, Option-cases,
}
use ghostd.Env.{Env, IsJson, DomainState}
use ghostd.Effect.{Host, M, Code, internal, failed_precondition, permission_denied, unauthenticated}
use ghostd.Effect.Same.{Same, Same-refl, Same-advance}
use ghostd.Effect.Triple.{
  After, Triple, Triple-bind, Triple-or_fail, Triple-weaken, Triple-recode, Triple-raise,
  Triple-require,
}
use ghostd.State.Domain.{lock}
use ghostd.State.Records.{stored, IsPlaced, Timeless, Triple-probe, Triple-domain_state}
use ghostd.Auth.Grants.{Triple-authorize_deployer}
use ghostd.Rpc.Server.{Server, all_domains, legacy_name, peer_addr}
use ghostd.Rpc.Confirm.{confirm_pending, confirm_first, confirm}
use ghostd.Rpc.Confirm.Candidate.{
  Confirmed, Untouched, no_change, stored-Same, Triple-confirm_pending,
}

module _ {e : Env} (json : IsJson e) (s : Server e) (addr lease_id : String) (h₀ : Host e) where
  abbrev Ended : Option Code → Host e → Type 0
  Ended o h = Untouched s lease_id h₀ h ⊎ Confirmed s addr lease_id h₀ h

  timeless : Timeless (Same h₀)
  timeless h q = Same-advance h₀ h q

  abbrev Placed : String → Type 0
  Placed domain = IsPlaced e domain (legacy_name s domain)

  abbrev examine : String → M e (Unit {0}) → DomainState e.Blob → M e (Unit {0})
  examine domain rest d = elim d.pending [
    | none ↦ rest
    | some p ↦ if p.id == lease_id then confirm_pending addr lease_id domain d p else rest
  ]

  Triple-examine :
      (domain : String)
      → Placed domain
      → (rest : M e (Unit {0})) → Triple (Same h₀) rest (λ _. Confirmed s addr lease_id h₀) Ended
      → (d : DomainState e.Blob) → stored domain (legacy_name s domain) h₀ ≡ some d
      → Triple (Same h₀) (examine domain rest d) (λ _. Confirmed s addr lease_id h₀) Ended
  unfolding confirm_pending
  Triple-examine domain placed rest triple d was = elim (Option-cases d.pending) [
    | inl nothing ↦ rw nothing triple
    | inr (p, pending) ↦ elim (Bool-cases (p.id == lease_id)) [
      | inl hit ↦
          rw (pending, hit)
            (Triple-confirm_pending json s addr lease_id h₀ domain placed d p was pending hit)
      | inr miss ↦ rw (pending, miss) triple
    ]
  ]

  Triple-confirm_first :
      (domains : List String)
      → All Placed domains
      → Triple
          (Same h₀)
          (confirm_first s addr lease_id domains)
          (λ _. Confirmed s addr lease_id h₀)
          Ended
  unfolding confirm_first
  Triple-confirm_first [] placed = Triple-raise failed_precondition (λ h q. inl (no_change q))
  Triple-confirm_first (domain ∷ domains) placed =
      let triple = Triple-confirm_first domains placed.1 in
      Triple-bind (λ d h. Same h₀ h × (stored domain (legacy_name s domain) h ≡ some d)) _ _
        (Triple-recode (Same h₀) internal _
          (Triple-domain_state timeless (λ o h q. q) domain (legacy_name s domain))
          (λ o h q. inl (no_change q)))
        λ d. record {
          run = λ h q.
              (Triple-examine domain placed.0 _ triple d
                  (sym (stored-Same domain (legacy_name s domain) h₀ h q.0) ∙ q.1)).run
                h q.0;
        }

module _ {e : Env} (json : IsJson e) (s : Server e) (peer : Option String) (lease_id : String)
    (placed : All (λ domain. IsPlaced e domain (legacy_name s domain)) (all_domains s))
    (h₀ : Host e) where
  abbrev Answered : Host e → Type 0
  Answered h = (addr : String) × (peer ≡ some addr) × Confirmed s addr lease_id h₀ h

  abbrev AnyEnd : Option Code → Host e → Type 0
  AnyEnd o h = Untouched s lease_id h₀ h ⊎ Answered h

  Triple-confirm : Triple (Same h₀) (confirm s peer lease_id) (λ _. Answered) AnyEnd
  unfolding confirm peer_addr lock
  Triple-confirm =
      Triple-require _ _ _
        (λ _.
          Triple-or_fail unauthenticated peer _
            (λ addr from.
              Triple-bind (λ _. Same h₀) _ _
                (Triple-recode (Same h₀) permission_denied _
                  (Triple-authorize_deployer (λ h q. Same-advance h₀ h q) s.authenticator addr)
                  (λ o h q. inl (no_change q)))
                λ id.
                  Triple-require _ _ _
                    (λ _.
                      Triple-bind (λ _. Same h₀) _ _
                        (Triple-recode (Same h₀) internal _
                          (Triple-probe (λ h q. Same-advance h₀ h q) (λ o h q. q))
                          (λ o h q. inl (no_change q)))
                        λ _.
                          Triple-weaken (Same h₀) _ _ _
                            (Triple-confirm_first json s addr lease_id h₀ (all_domains s) placed)
                            (λ h q. q) (λ _ h c. (addr, from, c))
                            (λ o h r. elim r [ inl u ↦ inl u | inr c ↦ inr (addr, from, c) ]))
                    (λ h q _. inl (no_change q)))
            (λ h q _. inl (no_change q)))
        (λ h q _. inl (no_change q))

-- Confirm on any host, whatever each call does and wherever the process dies, with every domain
-- that it searches known to the store. If it succeeds, the call came over a connection with an
-- address, and some domain had a pending lease of this id that was marked as applied, was asked for
-- over another address and whose deadline had not come at a reading of the clock that this call
-- made; its record is now the confirmed state with no lease, where that state is the live ruleset's
-- part that is ours for the firewall and the lease's target for other domains; and no other file but
-- the temporary one of its write, and nothing in the kernel, differs. If it does not succeed, either
-- that has happened all the same, or files, leases, timers and kernel are as they were, except that a
-- write for a lease of this id may have left its temporary file.
pub confirm_sound :
    {e : Env} (json : IsJson e) (s : Server e) (peer : Option String) (lease_id : String)
    → All (λ domain. IsPlaced e domain (legacy_name s domain)) (all_domains s)
    → (h : Host e)
    → After
        (λ _ h'. (addr : String) × (peer ≡ some addr) × Confirmed s addr lease_id h h')
        (λ _ h'.
          Untouched s lease_id h h'
          ⊎ ((addr : String) × (peer ≡ some addr) × Confirmed s addr lease_id h h'))
        (confirm s peer lease_id h)
confirm_sound json s peer lease_id placed h =
    (Triple-confirm json s peer lease_id placed h).run h (Same-refl h)
