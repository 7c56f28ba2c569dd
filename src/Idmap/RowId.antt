-- ===== src/Idmap/RowId.antt =====
-- `GenerateRowID`, `CheckValue` and `CheckValuev2` of idmap/service.go. `md5_hex` stands for
-- hex.EncodeToString(md5.Sum(…)): nothing below depends on which function it is.
pub mod Bounds
use gensokyo_discord.Prelude.{
  ℕ, Bool, true, false, not, ◌≤◌, Text, Outcome, ok, err, panicked, not_enough_digits, leb, ltb,
  eqb, length, take, select, if◌then◌else◌,
}
use gensokyo_discord.Strconv.{is_digit, parse_int, format_int, two_63}

module _ (md5_hex : Text → Text) where
  -- the loop over the hash that keeps its digits
  abbrev pub hash_digits : Text → Text
  hash_digits id = select is_digit (md5_hex id)

  unfoldable pub generate_row_id : Text → ℕ → Outcome ℕ
  generate_row_id id n =
      if leb n (length (hash_digits id))
      then parse_int (take n (hash_digits id))
      else err not_enough_digits

  abbrev differs : ℕ → Outcome ℕ → Bool
  differs value (ok generated) = not (eqb generated value)
  differs value (err e) = false
  differs value panicked = false

  -- `true` says that the value is not the one that the hash gives
  unfoldable pub check_value : Text → ℕ → Bool
  unfolding generate_row_id
  check_value id value = differs value (generate_row_id id (length (format_int value)))

-- `value < 100000` on an int64, which may be negative
unfoldable pub check_value_v2 : ℕ → Bool
check_value_v2 value = if ltb value two_63 then leb 100000 value else false
