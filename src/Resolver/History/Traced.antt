-- ===== src/Resolver/History/Traced.antt =====
-- internal/resolver: every host that an identity may resolve was offered to it.
use ghostd.Prelude.{
  ℕ, ◌<◌, String, ◌==◌, ◌≡◌, refl, sym, ◌∙◌, ap, subst, eq_iff, Bool, true, ◌⊎◌, inl, inr,
  Bool-cases, Option, none, some, some_inj, List, [], ◌∷◌, ◌++◌, Any, contains, if◌then◌else◌,
}
use ghostd.Resolver.History.{
  Request, ResolverEvent, replace, clear, ask, ask_base, answer, nth, policies_after, step, after,
}
use ghostd.Resolver.History.Entries.{Holds, lookup-Holds, grant_targets-Holds}
use ghostd.Resolver.History.Offers.{Offer, local_serve-Offer}
use ghostd.Resolver.History.Origin.{Allowed, Offered, answered, before, all_Passed, Passed-Allowed}
use ghostd.Resolver.History.Tables.{policy_of-known, policy_for-store, set_policies-empty}
use ghostd.Resolver.Host.{Host, IsLowering}
use ghostd.Resolver.Labels.{service_class}
use ghostd.Resolver.Local.{LocalHandler, grant_targets, local_serve}
use ghostd.Resolver.Policy.{Policy, Policies, Question, passes, acl_serve, policy_for}
use ghostd.Resolver.Policy.Admits.{Permits, acl_serve-passes_iff}
use ghostd.Resolver.Policy.Covers.{Covers, bare}

module _ (h : Host) (low : IsLowering h) (name host : String) (expiry : ℕ) where
  -- What is known of the tables after a history.
  abbrev pub Traced : List (ResolverEvent h) → Type 0
  Traced es =
      (p : Policy)
      → policy_for (after h es).policies name ≡ some p
      → Holds host expiry p.granted
      → Offered h name host expiry es

  module _ (handler : LocalHandler h) (free : Bool) (clock : ℕ → ℕ) (n : ℕ)
      (es : List (ResolverEvent h)) (traced : Traced es) (r : Request)
      (is : nth h (after h es).passed n ≡ some r) where
    abbrev now_policies : Policies
    now_policies =
        (local_serve h handler free clock (after h es).policies r.listener (r.question ∷ [])).1

    -- The policy that was extended: an old grant, or one that this answer makes.
    extended :
        (o : Offer h handler clock (after h es).policies now_policies r.listener r.question)
        → r.listener ≡ name
        → Holds host expiry (grant_targets h clock (o.answers ++ o.extra) o.policy).granted
        → Offered h name host expiry (answer handler free clock n ∷ es)
    extended o same holds =
        let (named, known) = policy_of-known (after h es).policies r.listener o.policy o.known in
        elim (grant_targets-Holds h host expiry clock (o.answers ++ o.extra) o.policy holds) [
          | inl old ↦ before (answer handler free clock n) es (
              traced o.policy
                (subst (λ x. policy_for (after h es).policies x ≡ some o.policy) same known) old)
          | inr (names, (k, at)) ↦
              answered handler free clock n k es r.question o.browse o.answers o.extra
                (subst
                  (λ x.
                    nth h (after h es).passed n
                    ≡ some (record { listener = x; question = r.question }))
                  same is)
                (subst (λ x. Allowed h x r.question es) same
                  (Passed-Allowed h low r.listener r.question o.service o.local o.of_class es
                    (all_Passed h es n r is named)))
                o.by o.gave names at
        ]

    answer_request :
        (p : Policy)
        → policy_for now_policies name ≡ some p
        → Holds host expiry p.granted
        → Offered h name host expiry (answer handler free clock n ∷ es)
    answer_request p has holds =
        elim (local_serve-Offer h handler free clock (after h es).policies r.listener r.question) [
          | inl same ↦
              before (answer handler free clock n) es
                (traced p (ap (λ x. policy_for x name) (sym same) ∙ has) holds)
          | inr o ↦
              let (_, known) = policy_of-known (after h es).policies r.listener o.policy o.known in
              let stored : policy_for now_policies name ≡ (
                  if r.listener == name
                  then some (grant_targets h clock (o.answers ++ o.extra) o.policy)
                  else policy_for (after h es).policies name) =
                ap (λ x. policy_for x name) o.stored
                ∙ policy_for-store (after h es).policies r.listener name
                    (grant_targets h clock (o.answers ++ o.extra) o.policy) o.policy known in
              elim (Bool-cases (r.listener == name)) [
                | inl same ↦ extended o ((eq_iff r.listener name).0 same) (
                    subst (λ (x : Policy). Holds host expiry x.granted)
                      (some_inj (sym has ∙ rw same at stored)) holds)
                | inr differs ↦
                    before (answer handler free clock n) es
                      (traced p (sym (rw differs at stored) ∙ has) holds)
              ]
        ]

  answer-Traced :
      (handler : LocalHandler h) (free : Bool) (clock : ℕ → ℕ) (n : ℕ) (es : List (ResolverEvent h))
      (found : Option Request)
      → Traced es
      → nth h (after h es).passed n ≡ found
      → (p : Policy)
      → policy_for (policies_after h handler free clock (after h es).policies found) name ≡ some p
      → Holds host expiry p.granted
      → Offered h name host expiry (answer handler free clock n ∷ es)
  unfolding policies_after
  answer-Traced handler free clock n es none traced is p has holds =
      before (answer handler free clock n) es (traced p has holds)
  answer-Traced handler free clock n es (some r) traced is p has holds =
      answer_request handler free clock n es traced r is p has holds

  all_Traced : (es : List (ResolverEvent h)) → Traced es
  unfolding after step policy_for
  all_Traced [] p has holds = cc has
  all_Traced (replace ids ∷ es) p has holds =
      absurd (subst (Holds host expiry) (set_policies-empty ids name p has) holds)
  all_Traced (clear ∷ es) p has holds = cc has
  all_Traced (ask listener now qs ∷ es) p has holds =
      before (ask listener now qs) es (all_Traced es p has holds)
  all_Traced (ask_base qs ∷ es) p has holds = before (ask_base qs) es (all_Traced es p has holds)
  all_Traced (answer handler free clock n ∷ es) p has holds =
      answer-Traced handler free clock n es (nth h (after h es).passed n) (all_Traced es) refl p has
        holds

module _ (h : Host) (low : IsLowering h) where
  -- What explains that a policy lets a question through: a class of services that it lists, an entry
  -- of its names, or an offer of the host that has time left.
  abbrev pub Reason : List (ResolverEvent h) → String → ℕ → Question → Policy → Type 0
  Reason es name now q p =
      ((c : String) × (service_class h (h.to_lower q.name) ≡ some c)
        × (contains p.id.allow_services c ≡ true))
      ⊎ (Any (λ e. Covers (bare h (h.to_lower q.name)) (bare h e)) p.id.allow_names
          ⊎ ((expiry : ℕ) × (now < expiry) × Offered h name (h.to_lower q.name) expiry es))

  abbrev pub Explained : List (ResolverEvent h) → String → ℕ → Question → Type 0
  Explained es name now q =
      (p : Policy) × (policy_for (after h es).policies name ≡ some p) × Reason es name now q p

  reason :
      (es : List (ResolverEvent h)) (name : String) (now : ℕ) (q : Question) (p : Policy)
      → policy_for (after h es).policies name ≡ some p
      → Permits h p now q
      → Reason es name now q p
  reason es name now q p known (_, inl (_, listed)) = inl listed
  reason es name now q p known (_, inr (inl (_, _, inl covers))) = inr (inl covers)
  reason es name now q p known (_, inr (inl (_, _, inr (expiry, there, later)))) =
      let holds = lookup-Holds (h.to_lower q.name) expiry p.granted there in
      inr (inr (expiry, later, all_Traced h low name (h.to_lower q.name) expiry es p known holds))
  reason es name now q p known (_, inr (inr (_, covers))) = inr (inl covers)

  -- After any history of requests, answers and changes of the policies, and when lower case has no
  -- upper case left: if the listener of a name passes a question on, then its policy lists the
  -- question's class of services, or its names cover the question's name, or the LAN named that host
  -- as the target of a service, in an answer to a question that was asked under the same name, of a
  -- class that its policy then listed, and the two minutes since are not over.
  pub acl_serve-Explained :
      (es : List (ResolverEvent h)) (name : String) (now : ℕ) (q : Question)
      → acl_serve h (after h es).policies name now (q ∷ []) ≡ passes name
      → Explained es name now q
  acl_serve-Explained es name now q e =
      let (p, r, known, one, permits) =
        (acl_serve-passes_iff h (after h es).policies name now (q ∷ [])).0 e in
      (
        p,
        known,
        reason es name now q p known
            (subst (Permits h p now) (ap (first_question q) (sym one)) permits),
      )
    where
      first_question : Question → List Question → Question
      first_question other [] = other
      first_question other (x ∷ _) = x
