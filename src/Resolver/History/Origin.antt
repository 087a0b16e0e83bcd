-- ===== src/Resolver/History/Origin.antt =====
-- internal/resolver: where the hosts that an identity may resolve come from.
use ghostd.Ledger.Identifiers.{has_suffix}
use ghostd.Prelude.{
  ℕ, zero, suc, ◌+◌, String, ◌==◌, ◌≡◌, refl, sym, ◌∙◌, ap, subst, eq_iff, Bool, true, false, ◌⊎◌,
  inl, inr, some, some_inj, List, [], ◌∷◌, ◌++◌, contains,
}
use ghostd.Resolver.Host.{Host, IsLowering}
use ghostd.Resolver.History.{
  Request, ResolverEvent, replace, clear, ask, ask_base, answer, enter, nth, step, after,
}
use ghostd.Resolver.History.Entries.{Names}
use ghostd.Resolver.History.Tables.{acl_serve-name}
use ghostd.Resolver.Labels.{service_class}
use ghostd.Resolver.Local.{Rr, Browsed, found, LocalHandler}
use ghostd.Resolver.Policy.{
  Policy, Policies, Question, Admission, passes, refuses, refuses_silently, acl_serve, policy_for,
  grant_time,
}
use ghostd.Resolver.Policy.Admits.{Permits, acl_serve-passes_iff}

module _ (h : Host) where
  -- Earlier in the history the listener of a name was asked for a class of services that its policy
  -- listed then.
  pub data Allowed (name : String) (q : Question) : List (ResolverEvent h) → Type 0 where
    asked :
        (now : ℕ) (es : List (ResolverEvent h)) (p : Policy) (service : String)
        → policy_for (after h es).policies name ≡ some p
        → service_class h q.name ≡ some service
        → contains p.id.allow_services service ≡ true
        → Allowed name q (ask name now (q ∷ []) ∷ es)
    earlier :
        (e : ResolverEvent h) (es : List (ResolverEvent h))
        → Allowed name q es
        → Allowed name q (e ∷ es)

  -- Earlier in the history the LAN answered a request that had been passed on under the name, and
  -- allowed then, with a service whose target is the host; and the grant dates from that answer.
  pub data Offered (name host : String) (expiry : ℕ) : List (ResolverEvent h) → Type 0 where
    answered :
        (handler : LocalHandler h) (free : Bool) (clock : ℕ → ℕ) (n k : ℕ)
        (es : List (ResolverEvent h)) (q : Question) (browse : String → ℕ → Browsed h)
        (answers extra : List (Rr h))
        → nth h (after h es).passed n ≡ some (record { listener = name; question = q })
        → Allowed name q es
        → handler.browse ≡ some browse
        → browse q.name q.qtype ≡ found answers extra
        → Names h host (answers ++ extra)
        → clock k + grant_time ≡ expiry
        → Offered name host expiry (answer handler free clock n ∷ es)
    before :
        (e : ResolverEvent h) (es : List (ResolverEvent h))
        → Offered name host expiry es
        → Offered name host expiry (e ∷ es)

  -- A request that was passed on under a name was asked for and admitted.
  pub data Passed (name : String) (q : Question) : List (ResolverEvent h) → Type 0 where
    admitted :
        (now : ℕ) (es : List (ResolverEvent h))
        → acl_serve h (after h es).policies name now (q ∷ []) ≡ passes name
        → Passed name q (ask name now (q ∷ []) ∷ es)
    still :
        (e : ResolverEvent h) (es : List (ResolverEvent h))
        → Passed name q es
        → Passed name q (e ∷ es)

  class_again : IsLowering h → (s : String) → service_class h (h.to_lower s) ≡ service_class h s
  unfolding service_class
  class_again low s = rw (low.again s) refl

  listed :
      IsLowering h
      → (name : String) (q : Question) (now : ℕ) (ps : Policies) (c : String)
      → has_suffix (h.to_lower q.name) ".local." ≡ true
      → service_class h q.name ≡ some c
      → acl_serve h ps name now (q ∷ []) ≡ passes name
      → (p : Policy) × (policy_for ps name ≡ some p) × (contains p.id.allow_services c ≡ true)
  listed low name q now ps c local is e =
      let (p, r, known, one, permits) = (acl_serve-passes_iff h ps name now (q ∷ [])).0 e in
      (p, known, pick p (subst (Permits h p now) (sym (head_inj q r one)) permits))
    where
      head_inj : (x y : Question) → ◌≡◌ {A = List Question} (x ∷ []) (y ∷ []) → x ≡ y
      head_inj x y e = cc e

      pick : (p : Policy) → Permits h p now q → contains p.id.allow_services c ≡ true
      pick p (_, inl (_, (d, same, there))) =
          ap (contains p.id.allow_services)
            (some_inj (sym is ∙ sym (class_again low q.name) ∙ same))
          ∙ there
      pick p (_, inr (inl (_, clash, _))) =
          absurd (cc (sym is ∙ sym (class_again low q.name) ∙ clash))
      pick p (_, inr (inr (clash, _))) = absurd (cc (sym local ∙ clash))

  pub Passed-Allowed :
      IsLowering h
      → (name : String) (q : Question) (c : String)
      → has_suffix (h.to_lower q.name) ".local." ≡ true
      → service_class h q.name ≡ some c
      → (es : List (ResolverEvent h)) → Passed name q es
      → Allowed name q es
  Passed-Allowed low name q c local is _ (admitted now es e) =
      let (p, known, there) = listed low name q now (after h es).policies c local is e in
      asked now es p c known is there
  Passed-Allowed low name q c local is _ (still e es past) =
      earlier e es (Passed-Allowed low name q c local is es past)

  enter-cases :
      (adm : Admission) (questions : List Question) (rs : List Request) (n : ℕ) (r : Request)
      → nth h (enter h adm questions rs) n ≡ some r
      → ((m : ℕ) × (nth h rs m ≡ some r))
        ⊎ ((adm ≡ passes r.listener) × (questions ≡ r.question ∷ []))
  unfolding enter nth
  enter-cases (passes name) (q ∷ []) rs zero r e = inr (
    ap (λ (x : Request). passes x.listener) (some_inj e),
    ap (λ (x : Request). x.question ∷ []) (some_inj e),
  )
  enter-cases (passes name) (q ∷ []) rs (suc n) r e = inl (n, e)
  enter-cases (passes name) [] rs n r e = inl (n, e)
  enter-cases (passes name) (q ∷ q' ∷ qs) rs n r e = inl (n, e)
  enter-cases refuses qs rs n r e = inl (n, e)
  enter-cases refuses_silently qs rs n r e = inl (n, e)

  pub all_Passed :
      (es : List (ResolverEvent h)) (n : ℕ) (r : Request)
      → nth h (after h es).passed n ≡ some r
      → (r.listener == "") ≡ false
      → Passed r.listener r.question es
  unfolding after step nth
  all_Passed [] n r e named = cc e
  all_Passed (replace ids ∷ es) n r e named = still (replace ids) es (all_Passed es n r e named)
  all_Passed (clear ∷ es) n r e named = still clear es (all_Passed es n r e named)
  all_Passed (answer handler free clock k ∷ es) n r e named =
      still (answer handler free clock k) es (all_Passed es n r e named)
  all_Passed (ask_base qs ∷ es) n r e named =
      elim (enter-cases (passes "") qs (after h es).passed n r e) [
        | inl (m, old) ↦ still (ask_base qs) es (all_Passed es m r old named)
        | inr (base, _) ↦ absurd (nameless base)
      ]
    where
      nameless : passes "" ≡ passes r.listener → ⊥
      nameless base = cc (sym named ∙ (eq_iff r.listener "").1 (cc base))
  all_Passed (ask name now qs ∷ es) n r e named =
      elim (enter-cases (acl_serve h (after h es).policies name now qs) qs (after h es).passed n r
        e) [
          | inl (m, old) ↦ still (ask name now qs) es (all_Passed es m r old named)
          | inr (admits, one) ↦
              entered (acl_serve-name h (after h es).policies name r.listener now qs admits) admits
                one
        ]
    where
      entered :
          r.listener ≡ name
          → acl_serve h (after h es).policies name now qs ≡ passes r.listener
          → qs ≡ r.question ∷ []
          → Passed r.listener r.question (ask name now qs ∷ es)
      entered same admits one =
          subst (λ x. Passed r.listener r.question (ask x now qs ∷ es)) same
            (subst (λ x. Passed r.listener r.question (ask r.listener now x ∷ es)) (sym one)
              (admitted now es (
                subst
                  (λ x.
                    acl_serve h (after h es).policies x now (r.question ∷ []) ≡ passes r.listener)
                  (sym same)
                  (subst (λ x. acl_serve h (after h es).policies name now x ≡ passes r.listener) one
                    admits))))
