-- ===== src/Idmap/Pairs/Scan.antt =====
-- Reading two row numbers back.
use gensokyo_discord.Prelude.{ℕ, ◌<◌, true, some, [], ◌∷◌, ◌++◌, ◌≡◌, refl, Text, ok, every, arith}
use gensokyo_discord.Strconv.{format_int, decimal, parse_int, is_digit, two_63}
use gensokyo_discord.Strconv.RoundTrip.{decimal_cons, parse_int-decimal, format_int-decimal}
use gensokyo_discord.Idmap.Keys.{pair_key}
use gensokyo_discord.Idmap.Pairs.{span_digits, scan_verb, number, scan_rows}

span_digits-colon :
    (s rest : Text) → every is_digit s ≡ true → span_digits (s ++ (b':' ∷ rest)) ≡ (s, b':' ∷ rest)
unfolding span_digits
span_digits-colon [] rest h = refl
span_digits-colon (c ∷ s) rest h = ground (arith, span_digits-colon s rest)

span_digits-all : (s : Text) → every is_digit s ≡ true → span_digits s ≡ (s, [])
unfolding span_digits
span_digits-all [] h = refl
span_digits-all (c ∷ s) h = ground (arith, span_digits-all s)

scan_verb_digit :
    (c : ℕ) (s : Text)
    → is_digit c ≡ true
    → scan_verb (c ∷ s) ≡ number (parse_int (span_digits (c ∷ s)).0) (span_digits (c ∷ s)).1
unfolding scan_verb
scan_verb_digit c s h = ground arith

first_digit_of : (c : ℕ) (s : Text) → every is_digit (c ∷ s) ≡ true → is_digit c ≡ true
first_digit_of c s h = ground arith

parse_int-decimal_ok : (n : ℕ) → n < two_63 → parse_int (decimal n) ≡ ok n
parse_int-decimal_ok n h = rw (parse_int-decimal n (omega arith)) (ground arith)

scan_verb-colon :
    (n : ℕ) (rest : Text)
    → n < two_63
    → scan_verb (decimal n ++ (b':' ∷ rest)) ≡ some (n, b':' ∷ rest)
scan_verb-colon n rest h =
    let (c, r, e, digits) = decimal_cons n in
    let whole : parse_int (c ∷ r) ≡ ok n = rw (← e) (parse_int-decimal_ok n h) in
    rw (
      e,
      scan_verb_digit c (r ++ (b':' ∷ rest)) (first_digit_of c r digits),
      span_digits-colon (c ∷ r) rest digits,
      whole,
    )

scan_verb-all : (n : ℕ) → n < two_63 → scan_verb (decimal n) ≡ some (n, [])
scan_verb-all n h =
    let (c, r, e, digits) = decimal_cons n in
    let whole : parse_int (c ∷ r) ≡ ok n = rw (← e) (parse_int-decimal_ok n h) in
    rw (e, scan_verb_digit c r (first_digit_of c r digits), span_digits-all (c ∷ r) digits, whole)

-- `Sscanf` reads back the two rows that `Sprintf` wrote.
pub scan_rows-pair_key :
    (n m : ℕ)
    → n < two_63
    → m < two_63
    → scan_rows (pair_key (format_int n) (format_int m)) ≡ (n, m)
unfolding scan_rows
scan_rows-pair_key n m hn hm = rw (
  format_int-decimal n hn,
  format_int-decimal m hm,
  scan_verb-colon n (decimal m) hn,
  scan_verb-all m hm,
)
