-- ===== src/Idmap/Keys.antt =====
-- The keys of the bucket `ids` of idmap/service.go. Identifiers, row numbers, pairs and the counter
-- stand in one bucket, so what keeps them apart is their spelling.
use gensokyo_discord.Prelude.{
  ℕ, Bool, true, false, not, ◌&&◌, [], ◌∷◌, ◌++◌, ◌≡◌, ◌≢◌, refl, Text, ◌==◌, codes, has_prefix,
  contains_byte, leb, length, arith, eq_iff, Bool-cases, inl, inr,
}
use gensokyo_discord.Strconv.{IsWord, format_int, row_bytes}
use gensokyo_discord.Strconv.RoundTrip.{format_int-injective, length-format_int}
use gensokyo_discord.Bolt.{accepts}

-- CounterKey
abbrev pub counter_key : Text
counter_key = codes "currentRow"

-- "row-" + rowid
abbrev pub row_text_key : Text → Text
row_text_key row = codes "row-" ++ row

-- fmt.Sprintf("row-%d", row)
abbrev pub row_key : ℕ → Text
row_key row = row_text_key (format_int row)

-- fmt.Sprintf("%s:%s", id, subid), and joinSectionAndKey
abbrev pub pair_key : Text → Text → Text
pair_key id subid = id ++ (b':' ∷ subid)

-- An identifier that no other kind of key is spelled like, and that the store accepts as a key.
unfoldable pub is_plain : Text → Bool
is_plain id =
    not (has_prefix id (codes "row-"))
    && not (id == counter_key)
    && not (id == [])
    && leb (length id) 32768
    && not (contains_byte b':' id)

pub is_plain-not-row : (id row : Text) → is_plain id ≡ true → row_text_key row == id ≡ false
unfolding is_plain
is_plain-not-row [] row h = refl
is_plain-not-row (a ∷ []) row h = ground arith
is_plain-not-row (a ∷ b ∷ []) row h = ground arith
is_plain-not-row (a ∷ b ∷ c ∷ []) row h = ground arith
is_plain-not-row (a ∷ b ∷ c ∷ d ∷ id) row h = ground arith

pub is_plain-ne-row : (id row : Text) → is_plain id ≡ true → id == row_text_key row ≡ false
unfolding is_plain
is_plain-ne-row [] row h = refl
is_plain-ne-row (a ∷ []) row h = ground arith
is_plain-ne-row (a ∷ b ∷ []) row h = ground arith
is_plain-ne-row (a ∷ b ∷ c ∷ []) row h = ground arith
is_plain-ne-row (a ∷ b ∷ c ∷ d ∷ id) row h = ground arith

pub is_plain-not-counter : (id : Text) → is_plain id ≡ true → counter_key == id ≡ false
unfolding is_plain
is_plain-not-counter id h = ground (arith, eq_iff counter_key id, eq_iff id counter_key)

pub is_plain-ne-counter : (id : Text) → is_plain id ≡ true → id == counter_key ≡ false
unfolding is_plain
is_plain-ne-counter id h = ground arith

pub row_key-injective : (r s : ℕ) → IsWord r → IsWord s → row_key r == row_key s ≡ true → r ≡ s
row_key-injective r s hr hs e = format_int-injective r s hr hs ((eq_iff _ _).0 e)

pub id-accepts : (id : Text) (row : ℕ) → is_plain id ≡ true → accepts id (row_bytes row) ≡ true
unfolding is_plain accepts row_bytes
id-accepts id row h = ground arith

pub row_key-accepts : (id : Text) (row : ℕ) → is_plain id ≡ true → accepts (row_key row) id ≡ true
unfolding is_plain accepts
row_key-accepts id row h = ground (arith, length-format_int row)

pub counter-accepts : (row : ℕ) → accepts counter_key (row_bytes row) ≡ true
unfolding accepts row_bytes
counter-accepts row = refl

pub row_key-ne : (r s : ℕ) → IsWord r → IsWord s → r ≢ s → row_key r == row_key s ≡ false
row_key-ne r s hr hs distinct = elim (Bool-cases (row_key r == row_key s)) [
  | inl same ↦ absurd (distinct (row_key-injective r s hr hs same))
  | inr other ↦ other
]

-- A key of two parts determines them, where the first part holds no colon.
pub pair_key-injective :
    (a b c d : Text)
    → contains_byte b':' a ≡ false
    → contains_byte b':' b ≡ false
    → pair_key a c ≡ pair_key b d
    → (a ≡ b) × (c ≡ d)
pair_key-injective [] [] c d ha hb e = (refl, cc)
pair_key-injective [] (y ∷ b) c d ha hb e = ground arith
pair_key-injective (x ∷ a) [] c d ha hb e = ground arith
pair_key-injective (x ∷ a) (y ∷ b) c d ha hb e =
    let tails : pair_key a c ≡ pair_key b d = cc in
    let heads : x ≡ y = cc in
    let (p, q) = pair_key-injective a b c d (ground arith) (ground arith) tails in (cc, q)
