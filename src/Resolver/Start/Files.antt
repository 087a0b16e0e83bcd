-- ===== src/Resolver/Start/Files.antt =====
-- internal/resolver/resolver.go: the names of the files that start publishes.
use Prim.Native.Char.{code}
use text.Mathlib.TextLemmas.{append_cancel_left, append_cancel_right, nil-append, cons-append}
use ghostd.Prelude.{
  ℕ, String, ◌==◌, ◌≡◌, sym, ◌∙◌, ap, arith, false, inl, inr, List, [], ◌∷◌, ◌++◌, All, Any, joined,
  codes, ne→eq-false,
}
use ghostd.Resolver.Acl.{DnsIdentity}
use ghostd.Resolver.Acl.Separate.{Apart, Separate}
use ghostd.Resolver.Host.{Host}
use ghostd.Resolver.Start.{temp_name, env_name, conf_name, env_text, identity_files}

codes-joined : (s t : String) → codes (joined s t) ≡ codes s ++ codes t
codes-joined String.[] t = ap codes (nil-append t)
codes-joined (String.◌∷◌ c s) t =
    ap codes (cons-append c s t) ∙ ap (◌∷◌ (code c)) (codes-joined s t)

pub name_inj : (x y : String) → env_name x ≡ env_name y → x ≡ y
name_inj x y e =
    append_cancel_right x y ".env" (append_cancel_left "dns-" (joined x ".env") (joined y ".env") e)

head_code : List ℕ → ℕ
head_code [] = 0
head_code (n ∷ _) = n

fourth_code : List ℕ → ℕ
fourth_code (_ ∷ _ ∷ _ ∷ n ∷ _) = n
fourth_code _ = 0

-- A file of an identity is none of these.
pub conf-ne_env : (x y : String) → conf_name x ≡ env_name y → ⊥
unfolding head_code
conf-ne_env x y e = omega (
  arith,
  ap head_code (
      sym (codes-joined "resolv-" (joined x ".conf"))
      ∙ ap codes e
      ∙ codes-joined "dns-" (joined y ".env")),
)

pub base-ne_env : (y : String) → ◌≡◌ {A = String} "dns.env" (env_name y) → ⊥
unfolding fourth_code
base-ne_env y e = omega (
  arith,
  ap (λ t. fourth_code (codes t)) e ∙ ap fourth_code (codes-joined "dns-" (joined y ".env")),
)

pub base_conf-ne_env : (y : String) → ◌≡◌ {A = String} "resolv.conf" (env_name y) → ⊥
unfolding head_code
base_conf-ne_env y e =
    omega (
      arith,
      ap (λ t. head_code (codes t)) e ∙ ap head_code (codes-joined "dns-" (joined y ".env")),
    )

pub temp-ne_env : (random y : String) → (temp_name random == env_name y) ≡ false
unfolding head_code
temp-ne_env random y = ne→eq-false (temp_name random) (env_name y) λ e. omega (
  arith,
  ap head_code
      (sym (codes-joined ".dns-" random) ∙ ap codes e ∙ codes-joined "dns-" (joined y ".env")),
)

module _ (h : Host) (id : DnsIdentity) where
  abbrev pub Own : String × String → Type 0
  Own f = f.0 ≡ env_name id.name → f.1 ≡ env_text id.listen

  pub identity_files-Own :
      (ids : List DnsIdentity)
      → All (λ x. x.name ≡ id.name → x ≡ id) ids
      → All Own (identity_files ids)
  unfolding identity_files
  identity_files-Own [] same = tt
  identity_files-Own (x ∷ xs) same = (
    λ e. ap (λ y. env_text y.listen) (same.0 (name_inj x.name id.name e)),
    (λ e. absurd (conf-ne_env x.name id.name e), identity_files-Own xs same.1),
  )

  pub identity_files-Any :
      (ids : List DnsIdentity)
      → Any (λ x. x ≡ id) ids
      → Any (λ f. (f.0 ≡ env_name id.name) × (f.1 ≡ env_text id.listen)) (identity_files ids)
  unfolding identity_files
  identity_files-Any [] there = elim there [ ]
  identity_files-Any (x ∷ xs) (inl e) =
      inl (ap (λ y. env_name y.name) e, ap (λ y. env_text y.listen) e)
  identity_files-Any (x ∷ xs) (inr there) = inr (inr (identity_files-Any xs there))

  -- Among separate identities a name is had once.
  pub all_same :
      (ids : List DnsIdentity)
      → Separate h ids
      → Any (λ x. x ≡ id) ids
      → All (λ x. x.name ≡ id.name → x ≡ id) ids
  all_same [] apart there = tt
  all_same (x ∷ xs) (off, rest) (inl e) = (λ _. e, others xs off)
    where
      others :
          (ys : List DnsIdentity) → All (Apart h x) ys → All (λ y. y.name ≡ id.name → y ≡ id) ys
      others [] off = tt
      others (y ∷ ys) off =
          (λ named. absurd (off.0.0 (ap (λ z. z.name) e ∙ sym named)), others ys off.1)
  all_same (x ∷ xs) (off, rest) (inr there) =
      (λ named. absurd (clash xs off there named), all_same xs rest there)
    where
      clash :
          (ys : List DnsIdentity) → All (Apart h x) ys → Any (λ y. y ≡ id) ys → x.name ≡ id.name → ⊥
      clash [] off there named = elim there [ ]
      clash (y ∷ ys) off (inl e) named = off.0.0 (named ∙ sym (ap (λ z. z.name) e))
      clash (y ∷ ys) off (inr there) named = clash ys off.1 there named
