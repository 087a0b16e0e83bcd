-- ===== src/Resolver/History/Offers.antt =====
-- internal/resolver/resolver.go: how the handling of a request changes the policies.
use ghostd.Ledger.Identifiers.{has_suffix}
use ghostd.Prelude.{
  ℕ, String, ◌≡◌, refl, arith, Bool, true, false, ◌⊎◌, inl, inr, Bool-cases, Option, Option-cases,
  none, some, List, [], ◌∷◌, ◌++◌, nat_eq,
}
use ghostd.Resolver.Host.{Host}
use ghostd.Resolver.Labels.{service_class}
use ghostd.Resolver.Local.{
  Rr, Browsed, no_lan, lan_error, found, LocalHandler, grant_targets, grant_found, store_policy,
  browse_reply, serve_browse, serve_lan, serve_question, local_serve, browse_for, browse_type,
}
use ghostd.Resolver.Policy.{Policy, Policies, Question, policy_of, class_inet}

module _ (h : Host) where
  -- A browse that grants: the question, what the LAN answered, and the policy that is extended.
  pub record Offer (handler : LocalHandler h) (clock : ℕ → ℕ) (ps ps' : Policies) (name : String)
      (q : Question) : Type 0 where
    pub browse : String → ℕ → Browsed h
    pub service : String
    pub policy : Policy
    pub answers : List (Rr h)
    pub extra : List (Rr h)
    pub local : has_suffix (h.to_lower q.name) ".local." ≡ true
    pub of_class : service_class h q.name ≡ some service
    pub by : handler.browse ≡ some browse
    pub gave : browse q.name q.qtype ≡ found answers extra
    pub known : policy_of ps name ≡ some policy
    pub stored : ps' ≡ store_policy name (grant_targets h clock (answers ++ extra) policy) ps

  Given : (ℕ → ℕ) → Policies → Policies → String → Browsed h → Type 0
  Given clock ps ps' name b =
      (policy : Policy) × (answers : List (Rr h)) × (extra : List (Rr h)) × (b
        ≡ found answers extra)
      × (policy_of ps name ≡ some policy)
      × (ps' ≡ store_policy name (grant_targets h clock (answers ++ extra) policy) ps)

  browse_reply-Given :
      (clock : ℕ → ℕ) (ps : Policies) (name : String) (b : Browsed h)
      → ((browse_reply h clock ps name b).1 ≡ ps)
        ⊎ Given clock ps (browse_reply h clock ps name b).1 name b
  unfolding browse_reply grant_found Given
  browse_reply-Given clock ps name no_lan = inl refl
  browse_reply-Given clock ps name lan_error = inl refl
  browse_reply-Given clock ps name (found answers extra) = elim (Option-cases (policy_of ps name)) [
    | inl unknown ↦ inl (rw unknown refl)
    | inr (p, known) ↦ inr (p, answers, extra, refl, known, rw known refl)
  ]

  serve_browse-Given :
      (free : Bool) (clock : ℕ → ℕ) (ps : Policies) (name : String) (b : Browsed h)
      → ((serve_browse h free clock ps name b).1 ≡ ps)
        ⊎ Given clock ps (serve_browse h free clock ps name b).1 name b
  unfolding serve_browse
  serve_browse-Given true clock ps name b = browse_reply-Given clock ps name b
  serve_browse-Given false clock ps name b = inl refl

  browse_for-eq :
      (q : Question) (service : Option String) (browse : Option (String → ℕ → Browsed h))
      (b : String → ℕ → Browsed h)
      → browse_for h q service browse ≡ some b
      → ((c : String) × (service ≡ some c)) × (browse ≡ some b)
  unfolding browse_for
  browse_for-eq q (some c) (some f) b e = elim (Bool-cases (browse_type q.qtype)) [
    | inl sd ↦ ((c, refl), rw sd at e)
    | inr address ↦ absurd (cc (rw address at e))
  ]
  browse_for-eq q (some c) none b e = cc e
  browse_for-eq q none browse b e = cc e

  no_browse :
      (handler : LocalHandler h) (free : Bool) (clock : ℕ → ℕ) (ps : Policies) (name : String)
      (q : Question)
      → (serve_lan h handler free clock ps name q none).1 ≡ ps
  unfolding serve_lan
  no_browse handler free clock ps name q = ground arith

  lan-Offer :
      (handler : LocalHandler h) (free : Bool) (clock : ℕ → ℕ) (ps : Policies) (name : String)
      (q : Question) (to : Option (String → ℕ → Browsed h))
      → has_suffix (h.to_lower q.name) ".local." ≡ true
      → browse_for h q (service_class h q.name) handler.browse ≡ to
      → ((serve_lan h handler free clock ps name q to).1 ≡ ps)
        ⊎ Offer handler clock ps (serve_lan h handler free clock ps name q to).1 name q
  unfolding serve_lan Given
  lan-Offer handler free clock ps name q none local e = inl (no_browse handler free clock ps name q)
  lan-Offer handler free clock ps name q (some b) local e =
      elim (serve_browse-Given free clock ps name (b q.name q.qtype)) [
        | inl same ↦ inl same
        | inr given ↦
            inr (offer given (browse_for-eq q (service_class h q.name) handler.browse b e))
      ]
    where
      offer :
          Given clock ps
            (serve_browse h free clock ps name (b q.name q.qtype)).1
            name
            (b q.name q.qtype)
          → ((c : String) × (service_class h q.name ≡ some c)) × (handler.browse ≡ some b)
          → Offer handler clock ps (serve_browse h free clock ps name (b q.name q.qtype)).1 name q
      offer (p, answers, extra, gave, known, stored) ((c, is), by) = record {
        browse = b;
        service = c;
        policy = p;
        answers = answers;
        extra = extra;
        local = local;
        of_class = is;
        by = by;
        gave = gave;
        known = known;
        stored = stored;
      }

  -- A request of one question leaves the policies as they are, or is a browse that extends the
  -- policy of its own name.
  pub local_serve-Offer :
      (handler : LocalHandler h) (free : Bool) (clock : ℕ → ℕ) (ps : Policies) (name : String)
      (q : Question)
      → ((local_serve h handler free clock ps name (q ∷ [])).1 ≡ ps)
        ⊎ Offer handler clock ps (local_serve h handler free clock ps name (q ∷ [])).1 name q
  unfolding local_serve serve_question
  local_serve-Offer handler free clock ps name q =
      elim (Bool-cases (has_suffix (h.to_lower q.name) ".local.")) [
        | inr wide ↦ inl (rw wide refl)
        | inl local ↦ elim (Bool-cases (nat_eq q.qclass class_inet)) [
          | inr foreign ↦ inl (rw (local, foreign) refl)
          | inl inet ↦
              rw (local, inet)
                (lan-Offer handler free clock ps name q
                  (browse_for h q (service_class h q.name) handler.browse) local refl)
        ]
      ]
