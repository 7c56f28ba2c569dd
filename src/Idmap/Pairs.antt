-- ===== src/Idmap/Pairs.antt =====
-- The pairs of idmap/service.go, a group or channel and a user in it: `StoreIDPro`,
-- `RetrieveRowByIDPro`, `RetrieveVirtualValuePro`, `RetrieveRealValuePro` and
-- `UpdateVirtualValuePro`, each one transaction on the bucket `ids`.
pub mod Scan
pub mod RoundTrip
pub mod Update
use gensokyo_discord.Prelude.{
  ℕ, Bool, true, false, Option, none, some, is_some, List, [], ◌∷◌, ◌++◌, Text, Outcome, ok, err,
  panicked, ◌>>=◌, some_or, key_not_found, bad_pair, pair_missing, pair_taken, if◌then◌else◌, eqb,
  split, ◌||◌,
}
use gensokyo_discord.Strconv.{format_int, parse_int, is_digit}
use gensokyo_discord.Bolt.{Bolt}
use gensokyo_discord.Bolt.Writes.{put_silently, put_checked}
use gensokyo_discord.Idmap.Keys.{pair_key}
use gensokyo_discord.Idmap.RowId.{generate_row_id}

-- The longest run of digits at the front, and what stands behind it.
unfoldable pub span_digits : Text → Text × Text
span_digits [] = ([], [])
span_digits (c ∷ s) =
    let (front, back) = span_digits s in if is_digit c then (c ∷ front, back) else ([], c ∷ s)

abbrev pub number : Outcome ℕ → Text → Option (ℕ × Text)
number (ok n) back = some (n, back)
number (err e) back = none
number panicked back = none

-- The verb %d of fmt.Sscanf: blanks (spaces and tabs here), a sign, digits, and the rest.
unfoldable pub scan_verb : Text → Option (ℕ × Text)
scan_verb [] = none
scan_verb (c ∷ s) =
    let skipped = scan_verb s in
    let signed = span_digits s in
    let plain = span_digits (c ∷ s) in
    if eqb c b' ' || eqb c 9
    then skipped
    else if eqb c b'-' || eqb c b'+'
    then number (parse_int (c ∷ signed.0)) signed.1
    else number (parse_int plain.0) plain.1

abbrev value_or_zero : Option (ℕ × Text) → ℕ
value_or_zero none = 0
value_or_zero (some (n, rest)) = n

abbrev second_number : Text → ℕ
second_number [] = 0
second_number (c ∷ s) = if eqb c b':' then value_or_zero (scan_verb s) else 0

abbrev both_numbers : Option (ℕ × Text) → ℕ × ℕ
both_numbers none = (0, 0)
both_numbers (some (n, rest)) = (n, second_number rest)

-- fmt.Sscanf(value, "%d:%d", &row, &subrow) with the error dropped: what is not read stays 0.
unfoldable pub scan_rows : Text → ℕ × ℕ
unfolding span_digits scan_verb
scan_rows value = both_numbers (scan_verb value)

-- `strings.Split(value, ":")`, which must give two parts.
abbrev pub two_parts : List Text → Outcome (Text × Text)
two_parts (a ∷ b ∷ []) = ok (a, b)
two_parts _ = err bad_pair

module _ (bolt : Bolt) where
  open bolt use {Bucket, get, delete}

  -- Unlike for single identifiers, no row is checked for being free.
  unfoldable pub store_id_pro : (Text → Text) → Text → Text → Bucket → Outcome ((ℕ × ℕ) × Bucket)
  unfolding scan_rows
  store_id_pro md5_hex id subid b = elim (get b (pair_key id subid)) [
    | some value ↦ ok (scan_rows value, b)
    | none ↦ do
      row ← generate_row_id md5_hex id 9
      subrow ← generate_row_id md5_hex subid 9
      let rows = pair_key (format_int row) (format_int subrow)
      let forward = put_silently bolt b (pair_key id subid) rows
      ok ((row, subrow), put_silently bolt forward rows (pair_key id subid))
  ]

  unfoldable pub retrieve_row_by_id_pro : Text → Text → Bucket → Outcome (Text × Text)
  unfolding split
  retrieve_row_by_id_pro row subrow b = do
    value ← some_or (get b (pair_key row subrow)) key_not_found
    two_parts (split value b':')

  unfoldable pub retrieve_virtual_value_pro : Text → Text → Bucket → Outcome (Text × Text)
  unfolding split
  retrieve_virtual_value_pro real real_sub b = do
    value ← some_or (get b (pair_key real real_sub)) key_not_found
    two_parts (split value b':')

  unfoldable pub retrieve_real_value_pro : ℕ → ℕ → Bucket → Outcome (Text × Text)
  unfolding split
  retrieve_real_value_pro row subrow b = do
    value ← some_or (get b (pair_key (format_int row) (format_int subrow))) pair_missing
    two_parts (split value b':')

  -- the argument order of the source: old and new group, old and new user
  unfoldable pub update_virtual_value_pro : ℕ → ℕ → ℕ → ℕ → Bucket → Outcome Bucket
  update_virtual_value_pro old_row new_row old_sub new_sub b = do
    let old_key = pair_key (format_int old_row) (format_int old_sub)
    let new_key = pair_key (format_int new_row) (format_int new_sub)
    value ← some_or (get b old_key) pair_missing
    if is_some (get b new_key) then err pair_taken else do
      backward ← put_checked bolt (delete (delete b old_key) value) new_key value
      put_checked bolt backward value new_key
