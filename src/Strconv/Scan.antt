-- ===== src/Strconv/Scan.antt =====
-- How large a number is that `n` digits spell.
use native.Mathlib.Nat.{pow-suc, pow-le-pow_right}
use gensokyo_discord.Prelude.{
  ℕ, ◌+◌, ◌*◌, ◌-◌, ◌^◌, ◌≤◌, ◌<◌, true, [], ◌∷◌, ◌≡◌, refl, some, Text, ok, length, every, arith,
  Option, none, eqb, Bool-cases, inl, inr,
}
use gensokyo_discord.Strconv.{IsWord, is_digit, scan, parse_int, unsigned, two_63, nonneg, negated}
use gensokyo_discord.Strconv.RoundTrip.{parse_int_digit_first, first_digit}

widen : (n d p : ℕ) → d ≤ 9 → (n * 10 + d + 1) * p ≤ (n + 1) * (p * 10)
widen n d p h = let m : n * 10 + d + 1 ≤ (n + 1) * 10 = omega arith in grind arith

scan_bounded :
    (n : ℕ) (s : Text)
    → every is_digit s ≡ true
    → (v : ℕ) × (scan n s ≡ some v) × (v < (n + 1) * 10 ^ length s)
unfolding scan
scan_bounded n [] h = (n, refl, omega arith)
scan_bounded n (c ∷ s) h =
    let d = c - b'0' in
    let digit : is_digit c ≡ true = ground arith in
    let (v, e, lt) = scan_bounded (n * 10 + d) s (ground arith) in
    let small : d ≤ 9 = ground arith in
    (v, rw (digit, scan) e, rw pow-suc (omega (arith, widen n d (10 ^ length s) small)))

pow_le : (m n : ℕ) → m ≤ n → 10 ^ m ≤ 10 ^ n
pow_le m n h = pow-le-pow_right (omega arith) h

below_two_63 : (v n : ℕ) → n ≤ 18 → v < 10 ^ n → v < two_63
below_two_63 v n h lt = omega (arith, pow_le n 18 h)

-- From 1 to 18 digits spell an int64 that is not negative.
pub parse_int-bounded :
    (s : Text)
    → every is_digit s ≡ true
    → 1 ≤ length s
    → length s ≤ 18
    → (v : ℕ) × (parse_int s ≡ ok v) × (v < 10 ^ length s)
parse_int-bounded [] h lo hi = absurd (omega arith)
parse_int-bounded (c ∷ s) h lo hi =
    let (v, e, lt) = scan_bounded 0 (c ∷ s) h in
    let fits : v < two_63 = below_two_63 v (length (c ∷ s)) hi (omega arith) in
    (v, rw (parse_int_digit_first c s (first_digit c s h), e) (ground (arith, fits)), omega arith)

nonneg-IsWord : (o : Option ℕ) (v : ℕ) → nonneg o ≡ ok v → IsWord v
nonneg-IsWord none v h = cc
nonneg-IsWord (some n) v h = ground arith

negated-IsWord : (o : Option ℕ) (v : ℕ) → negated o ≡ ok v → IsWord v
negated-IsWord none v h = cc
negated-IsWord (some n) v h = ground arith

-- What `ParseInt` returns is an int64.
pub parse_int-IsWord : (s : Text) (v : ℕ) → parse_int s ≡ ok v → IsWord v
unfolding parse_int
parse_int-IsWord [] v h = cc
parse_int-IsWord (c ∷ s) v h = elim (Bool-cases (eqb c b'+')) [
  | inl plus ↦ nonneg-IsWord (unsigned s) v (rw plus at h)
  | inr other ↦ elim (Bool-cases (eqb c b'-')) [
    | inl minus ↦ negated-IsWord (unsigned s) v (rw (other, minus) at h)
    | inr digit ↦ nonneg-IsWord (unsigned (c ∷ s)) v (rw (other, digit) at h)
  ]
]
