-- ===== src/Ledger/Prefixes.antt =====
-- internal/addressbook/pd.go: the prefixes of a delegation pool. The sixteen bytes of an address are
-- a list that starts with the last one, raw[15].
use Prim.Native.Nat.pow as pow
use ghostd.Prelude.{
  ℕ, zero, suc, ◌+◌, ◌-◌, ◌*◌, ◌/◌, ◌%◌, ◌^◌, ◌≤◌, ◌<◌, ◌≡◌, refl, sym, ◌∙◌, ap, subst, arith, List,
  [], ◌∷◌, nat_eq, if◌then◌else◌, length, Bool-cases, inl, inr,
}
use ghostd.Ledger.Options.Wire.{AllBytes}

-- The loop over the bytes from raw[byteIdx] on; a carry that is left after the first byte is lost.
unfoldable pub add_carry : List ℕ → ℕ → List ℕ
add_carry [] carry = []
add_carry (b ∷ bs) carry =
    let rest = add_carry bs (carry / 256 + (b + carry % 256) / 256) in
    if nat_eq carry 0 then b ∷ bs else (b + carry % 256) % 256 ∷ rest

unfoldable pub add_at : ℕ → ℕ → List ℕ → List ℕ
add_at zero carry bs = add_carry bs carry
add_at (suc n) carry [] = []
add_at (suc n) carry (b ∷ bs) = b ∷ add_at n carry bs

-- prefixAt: the bytes of the i-th prefix of a length. The carry is a uint64, so the shift may wrap;
-- what the loop makes of it is at most a 256th of it, and one more, and does not.
unfoldable pub prefix_at : List ℕ → ℕ → ℕ → List ℕ
unfolding add_carry add_at
prefix_at raw length i =
    let shift = 128 - length in add_at (shift / 8) (i % 2 ^ 64 * 2 ^ (shift % 8) % 2 ^ 64) raw

-- poolSize
unfoldable pub pool_size : ℕ → ℕ → ℕ
pool_size bits length = 2 ^ (length - bits)

abbrev pub value : List ℕ → ℕ
value [] = 0
value (b ∷ bs) = b + 256 * value bs

abbrev pub modulus : List ℕ → ℕ
modulus [] = 1
modulus (b ∷ bs) = 256 * modulus bs

-- The sum, but for what is lost past the first byte.
add_carry-value :
    (bs : List ℕ) (c : ℕ) → (q : ℕ) × (value bs + c ≡ value (add_carry bs c) + q * modulus bs)
unfolding add_carry
add_carry-value [] c = (c, omega arith)
add_carry-value (b ∷ bs) c = elim (Bool-cases (nat_eq c 0)) [
  | inl none_left ↦ (0, ground (arith, none_left))
  | inr some_left ↦
      let (q, sum) = add_carry-value bs (c / 256 + (b + c % 256) / 256) in
      (q, rw some_left (step q sum))
]
  where
    step :
        (q : ℕ)
        → value bs + (c / 256 + (b + c % 256) / 256)
          ≡ value (add_carry bs (c / 256 + (b + c % 256) / 256)) + q * modulus bs
        → b + 256 * value bs + c
          ≡ (b + c % 256) % 256
            + 256 * value (add_carry bs (c / 256 + (b + c % 256) / 256))
            + q * (256 * modulus bs)
    step q sum = grind (arith, sum)

add_carry-AllBytes : (bs : List ℕ) (c : ℕ) → AllBytes bs → AllBytes (add_carry bs c)
unfolding add_carry
add_carry-AllBytes [] c all = tt
add_carry-AllBytes (b ∷ bs) c all = elim (Bool-cases (nat_eq c 0)) [
  | inl none_left ↦ rw none_left all
  | inr some_left ↦
      rw some_left (omega arith, add_carry-AllBytes bs (c / 256 + (b + c % 256) / 256) all.1)
]

abbrev pub weight : ℕ → ℕ
weight zero = 1
weight (suc n) = 256 * weight n

add_at-value :
    (n c : ℕ) (bs : List ℕ)
    → n ≤ length bs
    → (q : ℕ) × (value bs + c * weight n ≡ value (add_at n c bs) + q * modulus bs)
unfolding add_at
add_at-value zero c bs h = let (q, sum) = add_carry-value bs c in (q, omega (arith, sum))
add_at-value (suc n) c [] h = absurd (omega arith)
add_at-value (suc n) c (b ∷ bs) h =
    let (q, sum) = add_at-value n c bs (omega arith) in (q, step q sum)
  where
    step :
        (q : ℕ)
        → value bs + c * weight n ≡ value (add_at n c bs) + q * modulus bs
        → b + 256 * value bs + c * (256 * weight n)
          ≡ b + 256 * value (add_at n c bs) + q * (256 * modulus bs)
    step q sum = grind (arith, sum)

add_at-AllBytes : (n c : ℕ) (bs : List ℕ) → AllBytes bs → AllBytes (add_at n c bs)
unfolding add_at
add_at-AllBytes zero c bs all = add_carry-AllBytes bs c all
add_at-AllBytes (suc n) c [] all = tt
add_at-AllBytes (suc n) c (b ∷ bs) all = (all.0, add_at-AllBytes n c bs all.1)

length-add_carry : (bs : List ℕ) (c : ℕ) → length (add_carry bs c) ≡ length bs
unfolding add_carry
length-add_carry [] c = refl
length-add_carry (b ∷ bs) c = ground (arith, length-add_carry bs (c / 256 + (b + c % 256) / 256))

length-add_at : (n c : ℕ) (bs : List ℕ) → length (add_at n c bs) ≡ length bs
unfolding add_at
length-add_at zero c bs = length-add_carry bs c
length-add_at (suc n) c [] = refl
length-add_at (suc n) c (b ∷ bs) = ap suc (length-add_at n c bs)

modulus-length : (bs : List ℕ) → modulus bs ≡ weight (length bs)
modulus-length [] = refl
modulus-length (b ∷ bs) = ap (λ (n : ℕ). 256 * n) (modulus-length bs)

value-lt-modulus : (bs : List ℕ) → AllBytes bs → value bs < modulus bs
value-lt-modulus [] all = omega arith
value-lt-modulus (b ∷ bs) all = omega (arith, value-lt-modulus bs all.1)

double : (n : ℕ) → 2 ^ suc n ≡ 2 * 2 ^ n
double n = omega (arith, pow.suc 2 n)

eightfold : (n : ℕ) → 2 ^ suc (suc (suc (suc (suc (suc (suc (suc n))))))) ≡ 256 * 2 ^ n
eightfold n = omega (
  arith,
  double n,
  double (suc n),
  double (suc (suc n)),
  double (suc (suc (suc n))),
  double (suc (suc (suc (suc n)))),
  double (suc (suc (suc (suc (suc n))))),
  double (suc (suc (suc (suc (suc (suc n)))))),
  double (suc (suc (suc (suc (suc (suc (suc n))))))),
)

pow_weight : (q r : ℕ) → 2 ^ r * weight q ≡ 2 ^ (8 * q + r)
pow_weight zero r =
    let same : 8 * 0 + r ≡ r = omega arith in
    subst (λ n. 2 ^ r * weight 0 ≡ 2 ^ n) (sym same) (omega arith)
pow_weight (suc q) r =
    let same : 8 * suc q + r ≡ suc (suc (suc (suc (suc (suc (suc (suc (8 * q + r)))))))) =
      omega arith in
    subst (λ n. 2 ^ r * weight (suc q) ≡ 2 ^ n) (sym same)
      (grind (arith, eightfold (8 * q + r), pow_weight q r))

shift_weight : (s i : ℕ) → i * 2 ^ (s % 8) * weight (s / 8) ≡ i * 2 ^ s
shift_weight s i =
    let same : 8 * (s / 8) + s % 8 ≡ s = omega arith in
    let joined : 2 ^ (s % 8) * weight (s / 8) ≡ 2 ^ s =
      pow_weight (s / 8) (s % 8) ∙ ap (λ (n : ℕ). 2 ^ n) same in
    grind (arith, joined)

small_power : (r : ℕ) → r < 8 → 2 ^ r ≤ 128
small_power zero h = omega arith
small_power (suc zero) h = omega arith
small_power (suc (suc zero)) h = omega arith
small_power (suc (suc (suc zero))) h = omega arith
small_power (suc (suc (suc (suc zero)))) h = omega arith
small_power (suc (suc (suc (suc (suc zero))))) h = omega arith
small_power (suc (suc (suc (suc (suc (suc zero)))))) h = omega arith
small_power (suc (suc (suc (suc (suc (suc (suc zero))))))) h = omega arith
small_power (suc (suc (suc (suc (suc (suc (suc (suc n)))))))) h = absurd (omega arith)

times_le : (i p : ℕ) → p ≤ 128 → i * p ≤ i * 128
times_le i p h = grind (arith, h)

-- A uint64 holds the shifted place.
shifted : (i r : ℕ) → i < 2 ^ 57 → r < 8 → i % 2 ^ 64 * 2 ^ r % 2 ^ 64 ≡ i * 2 ^ r
shifted i r small h =
    let whole : i % 2 ^ 64 ≡ i = omega (arith, small) in
    let fits : i * 2 ^ r < 2 ^ 64 = omega (arith, times_le i (2 ^ r) (small_power r h), small) in
    ap (λ (n : ℕ). n * 2 ^ r % 2 ^ 64) whole ∙ omega (arith, fits)

-- For an address of sixteen bytes, a prefix length of at most 128, and i below 2 ^ 57: the i-th prefix has sixteen
-- bytes, and as a number of 128 bits it is the address plus i shifted to the end of the prefix.
pub prefix_at-value :
    (raw : List ℕ) (length_bits i : ℕ)
    → AllBytes raw
    → length raw ≡ 16
    → length_bits ≤ 128
    → i < 2 ^ 57
    → AllBytes (prefix_at raw length_bits i)
      × (length (prefix_at raw length_bits i) ≡ 16)
      × (value (prefix_at raw length_bits i) ≡ (value raw + i * 2 ^ (128 - length_bits)) % 2 ^ 128)
unfolding prefix_at
prefix_at-value raw length_bits i bytes sixteen short small =
    let s = 128 - length_bits in
    let c = i * 2 ^ (s % 8) in
    let out = add_at (s / 8) c raw in
    let same = shifted i (s % 8) small (omega arith) in
    let whole = add_at-AllBytes (s / 8) c raw bytes in
    let size = length-add_at (s / 8) c raw ∙ sixteen in
    let (q, sum) = add_at-value (s / 8) c raw (omega (arith, sixteen, short)) in
    let full : modulus raw ≡ 2 ^ 128 = modulus-length raw ∙ ap weight sixteen in
    let full' : modulus out ≡ 2 ^ 128 = modulus-length out ∙ ap weight size in
    let below : value out < 2 ^ 128 =
      subst (λ m. value out < m) full' (value-lt-modulus out whole) in
    let exact : value raw + i * 2 ^ s ≡ value out + q * 2 ^ 128 =
      sym (ap (λ t. value raw + t) (shift_weight s i)) ∙ sum ∙ ap (λ m. value out + q * m) full in
    subst (λ n. P (add_at (s / 8) n raw)) (sym same) (whole, size, omega (arith, below, exact))
  where
    P : List ℕ → Type 0
    P out =
        AllBytes out
        × (length out ≡ 16)
        × (value out ≡ (value raw + i * 2 ^ (128 - length_bits)) % 2 ^ 128)

positive : (n : ℕ) → 0 < 2 ^ n
positive zero = omega arith
positive (suc n) = omega (arith, double n, positive n)

mul_cancel : (i j w : ℕ) → 0 < w → i * w ≡ j * w → i ≡ j
mul_cancel i j w h e = grind (arith, e)

-- Two prefixes of a pool, at places below 2 ^ 57 and with numbers below 2 ^ 128, differ when their places in the pool do: no
-- network is delegated under two of them.
pub prefix_at_inj :
    (raw : List ℕ) (length_bits i j : ℕ)
    → AllBytes raw
    → length raw ≡ 16
    → length_bits ≤ 128
    → i < 2 ^ 57
    → j < 2 ^ 57
    → value raw + i * 2 ^ (128 - length_bits) < 2 ^ 128
    → value raw + j * 2 ^ (128 - length_bits) < 2 ^ 128
    → prefix_at raw length_bits i ≡ prefix_at raw length_bits j
    → i ≡ j
prefix_at_inj raw length_bits i j bytes sixteen short small_i small_j low high same =
    let one = (prefix_at-value raw length_bits i bytes sixteen short small_i).2 in
    let other = (prefix_at-value raw length_bits j bytes sixteen short small_j).2 in
    let sums : i * 2 ^ (128 - length_bits) ≡ j * 2 ^ (128 - length_bits) =
      omega (arith, one, other, ap value same, low, high) in
    mul_cancel i j (2 ^ (128 - length_bits)) (positive (128 - length_bits)) sums
