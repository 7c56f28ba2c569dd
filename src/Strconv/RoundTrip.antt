-- ===== src/Strconv/RoundTrip.antt =====
-- Printing an int64 and reading it back.
use native.Mathlib.Nat.{pow-suc}
use gensokyo_discord.Prelude.{
  ℕ, zero, suc, ◌+◌, ◌-◌, ◌*◌, ◌/◌, ◌%◌, ◌^◌, ◌<◌, ◌≡◌, refl, arith, ok, Outcome, ap, sym, ◌∙◌,
  Text, [], ◌∷◌, ◌++◌, Option, some, none, every, contains_byte, every-append, length,
  length-append, ◌≤◌, true, false, Bool-cases, ltb, inl, inr,
}
use gensokyo_discord.Strconv.{
  IsWord, digits, decimal, format_int, is_digit, scan, parse_int, two_63, two_64, unsigned, nonneg,
}

-- One more digit at the end.
abbrev then_digit : Option ℕ → ℕ → Option ℕ
then_digit none d = none
then_digit (some v) d = some (v * 10 + d)

scan-snoc :
    (n d : ℕ) (s : Text) → d < 10 → scan n (s ++ ((b'0' + d) ∷ [])) ≡ then_digit (scan n s) d
unfolding scan
scan-snoc n d [] h = ground arith
scan-snoc n d (c ∷ s) h = ground (arith, scan-snoc (n * 10 + (c - b'0')) d s)

tenth-lt : (fuel n : ℕ) → n < 10 ^ suc (suc fuel) → n / 10 < 10 ^ suc fuel
tenth-lt fuel n h = omega (arith, pow-suc 10 (suc fuel))

-- With fuel for its digits, a number's decimal form is read back as the number.
scan-digits : (fuel n : ℕ) → n < 10 ^ suc fuel → scan 0 (digits (suc fuel) n) ≡ some n
unfolding digits scan
scan-digits zero n h = ground arith
scan-digits (suc fuel) n h = elim (Bool-cases (ltb n 10)) [
  | inl small ↦ rw small (ground arith)
  | inr large ↦
      rw
        (
          large,
          scan-snoc 0 (n % 10) (digits (suc fuel) (n / 10)) (omega arith),
          scan-digits fuel (n / 10) (tenth-lt fuel n h),
        )
        (ap some (omega arith))
]

digits_all_digits : (fuel n : ℕ) → every is_digit (digits fuel n) ≡ true
unfolding digits
digits_all_digits zero n = refl
digits_all_digits (suc fuel) n = ground (
  arith,
  digits_all_digits fuel (n / 10),
  every-append is_digit (digits fuel (n / 10)) ((b'0' + n % 10) ∷ []),
)

append_cons : (s : Text) (d : ℕ) → (c : ℕ) × (r : Text) × (s ++ (d ∷ []) ≡ c ∷ r)
append_cons [] d = (d, [], refl)
append_cons (c ∷ s) d = (c, s ++ (d ∷ []), refl)

digits_cons : (fuel n : ℕ) → (c : ℕ) × (r : Text) × (digits (suc fuel) n ≡ c ∷ r)
unfolding digits
digits_cons fuel n = elim (Bool-cases (ltb n 10)) [
  | inl small ↦ (b'0' + n, [], rw small)
  | inr large ↦ rw large (append_cons (digits fuel (n / 10)) (b'0' + n % 10))
]

-- The decimal form begins with a digit.
pub decimal_cons :
    (n : ℕ) → (c : ℕ) × (r : Text) × (decimal n ≡ c ∷ r) × (every is_digit (c ∷ r) ≡ true)
unfolding decimal
decimal_cons n = let (c, r, e) = digits_cons 19 n in (c, r, e, rw e at (digits_all_digits 20 n))

scan-decimal : (n : ℕ) → n < 10 ^ 20 → scan 0 (decimal n) ≡ some n
unfolding decimal
scan-decimal n h = scan-digits 19 n h

unsigned-decimal : (n : ℕ) → n < 10 ^ 20 → unsigned (decimal n) ≡ some n
unfolding decimal
unsigned-decimal n h = let (c, r, e) = digits_cons 19 n in rw e (rw e at (scan-digits 19 n h))

pub parse_int_digit_first :
    (c : ℕ) (r : Text) → is_digit c ≡ true → parse_int (c ∷ r) ≡ nonneg (unsigned (c ∷ r))
unfolding parse_int
parse_int_digit_first c r h = ground arith

pub first_digit : (c : ℕ) (r : Text) → every is_digit (c ∷ r) ≡ true → is_digit c ≡ true
first_digit c r h = ground arith

pub parse_int-decimal : (n : ℕ) → n < 10 ^ 20 → parse_int (decimal n) ≡ nonneg (some n)
parse_int-decimal n h =
    let (c, r, e, all_digits) = decimal_cons n in
    rw (e, parse_int_digit_first c r (first_digit c r all_digits), ← e, scan-decimal n h)

-- `ParseInt` reads back what `FormatInt` prints, for every int64, negative ones too.
pub parse_int-format_int : (w : ℕ) → IsWord w → parse_int (format_int w) ≡ ok w
unfolding format_int parse_int
parse_int-format_int w h = elim (Bool-cases (ltb w two_63)) [
  | inl small ↦ rw (small, parse_int-decimal w (omega arith)) (ground arith)
  | inr large ↦ rw (large, unsigned-decimal (two_64 - w) (omega arith)) (ground arith)
]

ok-injective : (a b : ℕ) → ◌≡◌ {A = Outcome ℕ} (ok a) (ok b) → a ≡ b
ok-injective a b h = cc

-- Two int64 with one decimal form are equal.
pub format_int-injective : (a b : ℕ) → IsWord a → IsWord b → format_int a ≡ format_int b → a ≡ b
format_int-injective a b ha hb e =
    ok-injective a b (sym (parse_int-format_int a ha) ∙ ap parse_int e ∙ parse_int-format_int b hb)

length-digits : (fuel n : ℕ) → length (digits fuel n) ≤ fuel
unfolding digits
length-digits zero n = omega arith
length-digits (suc fuel) n = ground (
  arith,
  length-digits fuel (n / 10),
  length-append (digits fuel (n / 10)) ((b'0' + n % 10) ∷ []),
)

pub length-format_int : (w : ℕ) → length (format_int w) ≤ 21
unfolding format_int decimal
length-format_int w = ground (arith, length-digits 20 w, length-digits 20 (two_64 - w))

-- An int64 that is not negative is written without a sign.
pub format_int-decimal : (w : ℕ) → w < two_63 → format_int w ≡ decimal w
unfolding format_int
format_int-decimal w h = ground arith

digits-no_colon : (s : Text) → every is_digit s ≡ true → contains_byte b':' s ≡ false
digits-no_colon [] h = refl
digits-no_colon (c ∷ s) h = ground (arith, digits-no_colon s)

-- A number holds no colon.
pub format_int-no_colon : (w : ℕ) → contains_byte b':' (format_int w) ≡ false
unfolding format_int decimal
format_int-no_colon w = ground (
  arith,
  digits-no_colon (digits 20 w) (digits_all_digits 20 w),
  digits-no_colon (digits 20 (two_64 - w)) (digits_all_digits 20 (two_64 - w)),
)
