-- ===== src/Resolver/Policy/Admits.antt =====
-- internal/resolver/acl.go: exactly which requests ghostacl passes on.
use ghostd.Ledger.Identifiers.{has_suffix}
use ghostd.Prelude.{
  ℕ, ◌<◌, String, ◌≡◌, refl, sym, ◌∙◌, ap, subst, arith, Bool, true, false, ◌⊎◌, inl, inr, ◌↔◌,
  Bool-cases, Option, none, some, some_inj, List, [], ◌∷◌, Any, lookup, contains, joined,
  if◌then◌else◌, nat_eq,
}
use ghostd.Resolver.Host.{Host}
use ghostd.Resolver.Labels.{service_class}
use ghostd.Resolver.Policy.Covers.{Covers, bare, AnyCovers, matches_any→Covers, Covers→matches_any}
use ghostd.Resolver.Policy.{
  Policy, Policies, Question, Answer, allow, deny, passes, class_inet, matches_name, in_force,
  decide_local, decide, policy_for, admit_question, acl_serve,
}

module _ (h : Host) where
  -- What an identity may ask: a class of services that it lists; under .local a host that its names
  -- cover or that was granted and has time left; elsewhere a name that its names cover.
  abbrev pub Permits : Policy → ℕ → Question → Type 0
  Permits p now q =
      (q.qclass ≡ class_inet)
      × (((has_suffix (h.to_lower q.name) ".local." ≡ true)
            × ((c : String) × (service_class h (h.to_lower q.name) ≡ some c)
                × (contains p.id.allow_services c ≡ true)))
          ⊎ (((has_suffix (h.to_lower q.name) ".local." ≡ true)
                × (service_class h (h.to_lower q.name) ≡ none)
                × (Any (λ e. Covers (bare h (h.to_lower q.name)) (bare h e)) p.id.allow_names
                    ⊎ ((expiry : ℕ) × (lookup (h.to_lower q.name) p.granted ≡ some expiry)
                        × (now < expiry))))
              ⊎ ((has_suffix (h.to_lower q.name) ".local." ≡ false)
                  × Any (λ e. Covers (bare h (h.to_lower q.name)) (bare h e)) p.id.allow_names)))

  in_force-lt :
      (now : ℕ) (found : Option ℕ)
      → (in_force now found ≡ true) ↔ ((expiry : ℕ) × (found ≡ some expiry) × (now < expiry))
  unfolding in_force
  in_force-lt now none = (λ e. cc e, λ (n, e, _). cc e)
  in_force-lt now (some expiry) = (
    λ e. (expiry, refl, ground (arith, e)),
    λ (n, e, less). let same = some_inj e in ground (arith, same, less),
  )

  decide_local-Permits :
      (p : Policy) (now : ℕ) (q : Question) (found : Option String)
      → q.qclass ≡ class_inet
      → has_suffix (h.to_lower q.name) ".local." ≡ true
      → service_class h (h.to_lower q.name) ≡ found
      → (decide_local h p now (h.to_lower q.name) found ≡ allow) ↔ Permits p now q
  unfolding decide_local matches_name
  decide_local-Permits p now q (some c) inet local is = (
    λ e. (inet, inl (local, (c, is, listed e))),
    λ (_, ways). elim ways [
      | inl (_, (d, same, in_list)) ↦
          rw (ap (contains p.id.allow_services) (some_inj (sym is ∙ same)) ∙ in_list) refl
      | inr (inl (_, clash, _)) ↦ absurd (cc (sym is ∙ clash))
      | inr (inr (clash, _)) ↦ absurd (cc (sym local ∙ clash))
    ],
  )
    where
      listed :
          (if contains p.id.allow_services c
              then allow
              else deny (joined "service class " (joined c " not allowed")))
            ≡ allow
          → contains p.id.allow_services c ≡ true
      listed e = ground (arith, e)
  decide_local-Permits p now q none inet local is = (
    λ e. elim (Bool-cases (matches_name h p name)) [
      | inl covered ↦ (
        inet,
        inr (inl (local, is, inl (matches_any→Covers h (bare h name) p.id.allow_names covered))),
      )
      | inr not_covered ↦ elim (Bool-cases (in_force now (lookup name p.granted))) [
        | inl live ↦
            (inet, inr (inl (local, is, inr ((in_force-lt now (lookup name p.granted)).0 live))))
        | inr over ↦ absurd (cc (rw (not_covered, over) at e))
      ]
    ],
    λ (_, ways). elim ways [
      | inl (_, (d, clash, _)) ↦ absurd (cc (sym is ∙ clash))
      | inr (inl (_, _, inl covers)) ↦
          rw (Covers→matches_any h (bare h name) p.id.allow_names covers) refl
      | inr (inl (_, _, inr granted)) ↦
          ground (arith, (in_force-lt now (lookup name p.granted)).1 granted)
      | inr (inr (clash, _)) ↦ absurd (cc (sym local ∙ clash))
    ],
  )
    where
      name : String
      name = h.to_lower q.name

  matches_name-AnyCovers :
      (p : Policy) (name : String)
      → (matches_name h p name ≡ true) ↔ AnyCovers h (bare h name) p.id.allow_names
  unfolding matches_name
  matches_name-AnyCovers p name = (
    matches_any→Covers h (bare h name) p.id.allow_names,
    Covers→matches_any h (bare h name) p.id.allow_names,
  )

  decide_wide-Permits :
      (p : Policy) (now : ℕ) (q : Question)
      → q.qclass ≡ class_inet
      → has_suffix (h.to_lower q.name) ".local." ≡ false
      → ((if matches_name h p (h.to_lower q.name) then allow else deny "name not allowed") ≡ allow)
        ↔ Permits p now q
  decide_wide-Permits p now q inet wide =
      let covers = matches_name-AnyCovers p (h.to_lower q.name) in
      (
        λ e. (inet, inr (inr (wide, covers.0 (ground (arith, e))))),
        λ (_, ways). elim ways [
          | inl (clash, _) ↦ absurd (cc (sym wide ∙ clash))
          | inr (inl (clash, _, _)) ↦ absurd (cc (sym wide ∙ clash))
          | inr (inr (_, covered)) ↦ rw (covers.1 covered) refl
        ],
      )

  foreign_class :
      (p : Policy) (now : ℕ) (q : Question)
      → nat_eq q.qclass class_inet ≡ false
      → decide h p now q ≡ deny "unsupported class"
  unfolding decide
  foreign_class p now q foreign = rw foreign refl

  own_class :
      (p : Policy) (now : ℕ) (q : Question) (local : Bool)
      → nat_eq q.qclass class_inet ≡ true
      → has_suffix (h.to_lower q.name) ".local." ≡ local
      → decide h p now q ≡ (
          if local
          then decide_local h p now (h.to_lower q.name) (service_class h (h.to_lower q.name))
          else if matches_name h p (h.to_lower q.name)
          then allow
          else deny "name not allowed")
  unfolding decide
  own_class p now q local inet is = rw (inet, is) refl

  decide-Permits :
      (p : Policy) (now : ℕ) (q : Question) → (decide h p now q ≡ allow) ↔ Permits p now q
  decide-Permits p now q = elim (Bool-cases (nat_eq q.qclass class_inet)) [
    | inr foreign ↦ (
      λ e. absurd (cc (sym (foreign_class p now q foreign) ∙ e)),
      λ (inet, _). absurd (cc (sym foreign ∙ ap (λ n. nat_eq n class_inet) inet)),
    )
    | inl inet ↦ elim (Bool-cases (has_suffix (h.to_lower q.name) ".local.")) [
      | inl local ↦
          subst (λ x. (x ≡ allow) ↔ Permits p now q) (sym (own_class p now q true inet local))
            (decide_local-Permits p now q (service_class h (h.to_lower q.name))
              (ground (arith, inet)) local refl)
      | inr wide ↦
          subst (λ x. (x ≡ allow) ↔ Permits p now q) (sym (own_class p now q false inet wide))
            (decide_wide-Permits p now q (ground (arith, inet)) wide)
    ]
  ]

  -- The policy and the single question under which a request is passed on.
  abbrev pub Entitled : Policies → String → ℕ → List Question → Type 0
  Entitled ps name now questions =
      (p : Policy) × (q : Question) × (policy_for ps name ≡ some p)
      × (questions ≡ q ∷ [])
      × Permits p now q

  admit_one :
      (name : String) (now : ℕ) (p : Policy) (q : Question)
      → (admit_question h name now (some p) (q ∷ []) ≡ passes name) ↔ Permits p now q
  unfolding admit_question
  admit_one name now p q = elim (answers (decide h p now q)) [
    | inl yes_allow ↦
        (λ e. (decide-Permits p now q).0 yes_allow, λ _. rw (yes_allow, admit_question) refl)
    | inr (reason, denied) ↦ (
      λ e. absurd (cc (rw (denied, admit_question) at e)),
      λ permits. absurd (cc (sym denied ∙ (decide-Permits p now q).1 permits)),
    )
  ]
    where
      answers : (a : Answer) → (a ≡ allow) ⊎ ((r : String) × (a ≡ deny r))
      answers allow = inl refl
      answers (deny r) = inr (r, refl)

  admitted :
      (ps : Policies) (name : String) (now : ℕ) (found : Option Policy) (questions : List Question)
      → policy_for ps name ≡ found
      → admit_question h name now found questions ≡ passes name
      → Entitled ps name now questions
  unfolding admit_question
  admitted ps name now (some p) (q ∷ []) is e = (p, q, is, refl, (admit_one name now p q).0 e)
  admitted ps name now (some p) (q ∷ r ∷ rs) is e = cc e
  admitted ps name now (some p) [] is e = cc e
  admitted ps name now none questions is e = cc e

  -- ghostacl passes a request on exactly when its listener has a policy, it asks one question, of
  -- class IN, and the policy permits it: a service that it lists, a .local host that its names cover
  -- or that a grant with time left names, or another name that its names cover.
  pub acl_serve-passes_iff :
      (ps : Policies) (name : String) (now : ℕ) (questions : List Question)
      → (acl_serve h ps name now questions ≡ passes name) ↔ Entitled ps name now questions
  unfolding acl_serve
  acl_serve-passes_iff ps name now questions = (
    admitted ps name now (policy_for ps name) questions refl,
    λ (p, q, is, one, permits). rw (is, one, admit_question) ((admit_one name now p q).1 permits),
  )
