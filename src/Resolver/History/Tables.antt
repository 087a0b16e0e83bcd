-- ===== src/Resolver/History/Tables.antt =====
-- internal/resolver/acl.go: what the table of policies holds under a name.
use ghostd.Prelude.{
  ℕ, String, ◌==◌, ◌≡◌, refl, sym, ◌∙◌, ap, false, ◌⊎◌, inl, inr, Bool-cases, Option, none, some,
  some_inj, List, [], ◌∷◌, lookup, insert, lookup-erase, if◌then◌else◌,
}
use ghostd.Resolver.Acl.{DnsIdentity}
use ghostd.Resolver.Host.{Host}
use ghostd.Resolver.Local.{store_policy}
use ghostd.Resolver.Policy.{
  Policy, Policies, Question, Answer, allow, deny, Admission, passes, refuses, decide, policy_for,
  policy_of, set_policies, new_policies, new_policy, admit_question, acl_serve,
}

pub lookup-insert {ℓ} :
    {V : Type ℓ} (name key : String) (v : V) (entries : List (String × V))
    → lookup key (insert name v entries) ≡ (if name == key then some v else lookup key entries)
unfolding lookup insert
lookup-insert name key v entries = elim (Bool-cases (name == key)) [
  | inl same ↦ rw same refl
  | inr differs ↦ rw differs (lookup-erase name key entries ∙ rw differs refl)
]

pub policy_of-known :
    (ps : Policies) (name : String) (p : Policy)
    → policy_of ps name ≡ some p
    → ((name == "") ≡ false) × (policy_for ps name ≡ some p)
unfolding policy_of
policy_of-known ps name p e = elim (Bool-cases (name == "")) [
  | inl nameless ↦ absurd (cc (rw nameless at e))
  | inr named ↦ (named, rw named at e)
]

pub policy_for-store :
    (ps : Policies) (key name : String) (p old : Policy)
    → policy_for ps key ≡ some old
    → policy_for (store_policy key p ps) name ≡ (if key == name then some p else policy_for ps name)
unfolding policy_for store_policy
policy_for-store none key name p old e = cc e
policy_for-store (some table) key name p old e = lookup-insert key name p table

new_policies-empty :
    (ids : List DnsIdentity) (table : List (String × Policy)) (name : String) (p : Policy)
    → lookup name (new_policies ids table) ≡ some p
    → (p.granted ≡ []) ⊎ (lookup name table ≡ some p)
unfolding new_policies new_policy
new_policies-empty [] table name p e = inr e
new_policies-empty (id ∷ ids) table name p e =
    elim (new_policies-empty ids (insert id.name (new_policy id) table) name p e) [
      | inl empty ↦ inl empty
      | inr there ↦ elim (Bool-cases (id.name == name)) [
        | inl same ↦ inl (
            ap (λ (x : Policy). x.granted)
              (sym (
                some_inj
                  (rw same at (sym (lookup-insert id.name name (new_policy id) table) ∙ there)))))
        | inr differs ↦
            inr (rw differs at (sym (lookup-insert id.name name (new_policy id) table) ∙ there))
      ]
    ]

-- New policies have granted nothing.
pub set_policies-empty :
    (ids : List DnsIdentity) (name : String) (p : Policy)
    → policy_for (set_policies ids) name ≡ some p
    → p.granted ≡ []
unfolding policy_for set_policies lookup
set_policies-empty ids name p e = elim (new_policies-empty ids [] name p e) [
  | inl empty ↦ empty
  | inr there ↦ absurd (cc there)
]

module _ (h : Host) where
  -- A request is passed on under the name of its own listener.
  pub acl_serve-name :
      (ps : Policies) (name other : String) (now : ℕ) (questions : List Question)
      → acl_serve h ps name now questions ≡ passes other
      → other ≡ name
  unfolding acl_serve admit_question
  acl_serve-name ps name other now questions e = named (policy_for ps name) questions e
    where
      decided :
          (a : Answer)
          → ◌≡◌ {A = Admission} (elim a [ allow ↦ passes name | deny _ ↦ refuses ]) (passes other)
          → other ≡ name
      decided allow e = cc e
      decided (deny r) e = cc e

      named :
          (found : Option Policy) (qs : List Question)
          → admit_question h name now found qs ≡ passes other
          → other ≡ name
      named (some p) (q ∷ []) e = decided (decide h p now q) e
      named (some p) [] e = cc e
      named (some p) (q ∷ q' ∷ qs) e = cc e
      named none qs e = cc e
