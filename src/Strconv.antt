-- ===== src/Strconv.antt =====
-- The decimal and binary forms of an int64, as Go's packages strconv, fmt (the verb %d) and
-- encoding/binary write and read them. An int64 is its two's complement bit pattern, a number
-- below 2 ^ 64, so that `int64(u)` and `uint64(i)` are the identity.
pub mod RoundTrip
pub mod Bytes
pub mod Scan
use gensokyo_discord.Prelude.{
  ℕ, zero, suc, ◌+◌, ◌-◌, ◌*◌, ◌/◌, ◌%◌, ◌^◌, ◌<◌, Bool, true, false, ◌&&◌, Option, none, some,
  List, [], ◌∷◌, ◌++◌, Text, Outcome, ok, err, panicked, bad_number, ltb, leb, eqb, if◌then◌else◌,
  codes, ◌≡◌, refl,
}

abbrev pub two_63 : ℕ
two_63 = 2 ^ 63

abbrev pub two_64 : ℕ
two_64 = 2 ^ 64

abbrev pub IsWord : ℕ → Type 0
IsWord w = w < two_64

-- `fuel` bounds the number of digits; 20 are enough below 10 ^ 20.
unfoldable pub digits : ℕ → ℕ → Text
digits zero n = []
digits (suc fuel) n =
    if ltb n 10 then (b'0' + n) ∷ [] else digits fuel (n / 10) ++ ((b'0' + n % 10) ∷ [])

unfoldable pub decimal : ℕ → Text
unfolding digits
decimal n = digits 20 n

-- strconv.FormatInt(i, 10)
unfoldable pub format_int : ℕ → Text
unfolding decimal
format_int w = if ltb w two_63 then decimal w else b'-' ∷ decimal (two_64 - w)

abbrev pub is_digit : ℕ → Bool
is_digit c = leb b'0' c && leb c b'9'

-- The number that digits spell, with no bound. Go stops where it passes 2 ^ 64; both are errors.
unfoldable pub scan : ℕ → Text → Option ℕ
scan n [] = some n
scan n (c ∷ s) = if is_digit c then scan (n * 10 + (c - b'0')) s else none

abbrev pub nonneg : Option ℕ → Outcome ℕ
nonneg none = err bad_number
nonneg (some n) = if ltb n two_63 then ok n else err bad_number

abbrev pub negated : Option ℕ → Outcome ℕ
negated none = err bad_number
negated (some n) = if leb n two_63 then ok ((two_64 - n) % two_64) else err bad_number

-- strconv.ParseUint on what stands behind the sign: at least one digit.
abbrev pub unsigned : Text → Option ℕ
unsigned [] = none
unsigned (c ∷ s) = scan 0 (c ∷ s)

-- strconv.ParseInt(s, 10, 64)
unfoldable pub parse_int : Text → Outcome ℕ
unfolding scan
parse_int [] = err bad_number
parse_int (c ∷ s) =
    if eqb c b'+'
    then nonneg (unsigned s)
    else if eqb c b'-'
    then negated (unsigned s)
    else nonneg (unsigned (c ∷ s))

-- binary.BigEndian.PutUint64 into a fresh slice of 8 bytes.
unfoldable pub row_bytes : ℕ → Text
row_bytes w =
    (w / 2 ^ 56 % 256)
    ∷ (w / 2 ^ 48 % 256)
    ∷ (w / 2 ^ 40 % 256)
    ∷ (w / 2 ^ 32 % 256)
    ∷ (w / 2 ^ 24 % 256)
    ∷ (w / 2 ^ 16 % 256)
    ∷ (w / 2 ^ 8 % 256)
    ∷ (w % 256)
    ∷ []

-- binary.BigEndian.Uint64 reads the first 8 bytes, and panics on a shorter slice.
unfoldable pub read_row : Text → Outcome ℕ
read_row (a ∷ b ∷ c ∷ d ∷ e ∷ f ∷ g ∷ h ∷ rest) =
    ok (a * 2 ^ 56 + b * 2 ^ 48 + c * 2 ^ 40 + d * 2 ^ 32 + e * 2 ^ 24 + f * 2 ^ 16 + g * 2 ^ 8 + h)
read_row _ = panicked
