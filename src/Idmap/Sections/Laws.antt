-- ===== src/Idmap/Sections/Laws.antt =====
-- Reading settings back, and finding the identifiers that have a setting.
use gensokyo_discord.Prelude.{
  Bool, true, false, ◌&&◌, ◌||◌, Option, none, some, List, [], ◌∷◌, append_assoc, ◌≡◌, ◌≢◌, refl,
  sym, ap, ◌∙◌, ◌↔◌, ◌⊎◌, Text, ◌==◌, eq_iff, eq_refl, Outcome, ok, err, some_or, missing_key,
  put_failed, if◌then◌else◌, has_suffix, split, contains_byte, arith, Bool-cases, inl, inr,
}
use gensokyo_discord.Bolt.{Bolt, accepts, above, is_sorted, lookup}
use gensokyo_discord.Bolt.Sorted.{above_lower}
use gensokyo_discord.Bolt.Sorted.Order.{text_ltb_irrefl}
use gensokyo_discord.Bolt.Writes.{put_checked_accepted, put_checked_refused}
use gensokyo_discord.Idmap.Keys.{pair_key, pair_key-injective}
use gensokyo_discord.Idmap.Sections.{
  join_section_and_key, or_empty, write_config, read_config, matching_ids,
  find_keys_by_sub_and_type, first_part,
}

module _ (bolt : Bolt) where
  open bolt use {Bucket, get, get_empty, entries, lookup_entries, entries_sorted}

  -- A write of a key and a value that the store accepts.
  abbrev pub Accepted : Text → Text → Text → Type 0
  Accepted section name value = accepts (join_section_and_key section name) value ≡ true

  written :
      (section name value : Text) (db : Option Bucket)
      → Accepted section name value
      → (b : Bucket) × (write_config bolt section name value db ≡ ok (some b))
        × ((j : Text)
            → get b j ≡ (
                if join_section_and_key section name == j
                then some value
                else get (or_empty bolt db) j))
  unfolding write_config
  written section name value db fits =
      let (b, e, at) =
        put_checked_accepted bolt (or_empty bolt db) (join_section_and_key section name) value
          fits in
      (b, rw e, at)

  read-or_empty :
      (section name : Text) (db : Option Bucket)
      → some_or (get (or_empty bolt db) (join_section_and_key section name)) missing_key
        ≡ (elim db as (λ _. Outcome Text) [
          | none ↦ err missing_key
          | some old ↦ read_config bolt section name (some old)
        ])
  unfolding read_config
  read-or_empty section name none = rw (get_empty (join_section_and_key section name)) refl
  read-or_empty section name (some b) = refl

  -- A setting that the store accepts is read back. Another setting, of a section whose name has no colon
  -- either, reads as before; if the database had no bucket yet, it is now missing as a key.
  pub read_config-write_config :
      (section name value : Text) (db : Option Bucket)
      → Accepted section name value
      → contains_byte b':' section ≡ false
      → (db' : Option Bucket) × (write_config bolt section name value db ≡ ok db')
        × (read_config bolt section name db' ≡ ok value)
        × ((section' name' : Text)
            → contains_byte b':' section' ≡ false
            → (section ≢ section') ⊎ (name ≢ name')
            → read_config bolt section' name' db' ≡ (elim db as (λ _. Outcome Text) [
              | none ↦ err missing_key
              | some old ↦ read_config bolt section' name' (some old)
            ]))
  unfolding read_config
  read_config-write_config section name value db fits plain =
      let (b, e, at) = written section name value db fits in
      (
        some b,
        e,
        rw (at (pair_key section name), eq_refl (pair_key section name)),
        λ section' name' plain' distinct.
            rw (at (pair_key section' name'), other section' name' plain' distinct)
              (read-or_empty section' name' db),
      )
    where
      other :
          (section' name' : Text)
          → contains_byte b':' section' ≡ false
          → (section ≢ section') ⊎ (name ≢ name')
          → pair_key section name == pair_key section' name' ≡ false
      other section' name' plain' distinct =
          elim (Bool-cases (pair_key section name == pair_key section' name')) [
            | inl same ↦
                let (e, f) =
                  pair_key-injective section section' name name' plain plain'
                    ((eq_iff (pair_key section name) (pair_key section' name')).0 same) in
                elim distinct [ inl d ↦ absurd (d e) | inr d ↦ absurd (d f) ]
            | inr differs ↦ differs
          ]

  -- A write that the store refuses is an error.
  pub write_config_refused :
      (section name value : Text) (db : Option Bucket)
      → accepts (join_section_and_key section name) value ≡ false
      → write_config bolt section name value db ≡ err put_failed
  unfolding write_config
  write_config_refused section name value db refused = rw (
      put_checked_refused bolt (or_empty bolt db) (join_section_and_key section name) value refused)

  -- The colon between section and name is not escaped: what is written as the name `c` of the
  -- section `a:b` is read back as the name `b:c` of the section `a`.
  pub read_config_ambiguous :
      (a b c value : Text) (db : Option Bucket)
      → Accepted (pair_key a b) c value
      → (db' : Option Bucket) × (write_config bolt (pair_key a b) c value db ≡ ok db')
        × (read_config bolt a (pair_key b c) db' ≡ ok value)
  unfolding read_config
  read_config_ambiguous a b c value db fits =
      let (bucket, e, at) = written (pair_key a b) c value db fits in
      let same : pair_key (pair_key a b) c ≡ pair_key a (pair_key b c) =
        append_assoc a (b':' ∷ b) (b':' ∷ c) in
      (
        some bucket,
        e,
        rw (← same) (rw (at (pair_key (pair_key a b) c), eq_refl (pair_key (pair_key a b) c))),
      )

-- Is the text in the list?
abbrev pub is_among : Text → List Text → Bool
is_among id [] = false
is_among id (x ∷ xs) = x == id || is_among id xs

pub is_among_head : (id : Text) (xs : List Text) → is_among id (id ∷ xs) ≡ true
is_among_head id xs = rw (eq_refl id)

matching_ids_complete :
    (sub suffix key : Text) (m : List (Text × Text))
    → lookup key m ≡ some sub
    → has_suffix key suffix ≡ true
    → is_among (first_part (split key b':')) (matching_ids sub suffix m) ≡ true
unfolding matching_ids
matching_ids_complete sub suffix key [] found ends = cc
matching_ids_complete sub suffix key ((j, w) ∷ m) found ends = elim (Bool-cases (j == key)) [
  | inl same ↦
      let e : j ≡ key = (eq_iff j key).0 same in
      let held : some w ≡ some sub = rw same at found in
      let value : w ≡ sub = cc in
      rw (e, ends, (eq_iff w sub).1 value, eq_refl (first_part (split key b':')))
  | inr other ↦
      ground (arith, other, matching_ids_complete sub suffix key m (rw other at found) ends)
]

-- A key of a sorted list's tail is not its head's.
later_key :
    (j w key v : Text) (m : List (Text × Text))
    → above j m ≡ true
    → lookup key m ≡ some v
    → j == key ≡ false
later_key j w key v [] up found = cc
later_key j w key v ((i, u) ∷ m) up found = elim (Bool-cases (i == key)) [
  | inl same ↦ ground (arith, eq_iff j key, eq_iff i key, text_ltb_irrefl j)
  | inr other ↦
      later_key j w key v m (above_lower j i m (ground arith) (ground arith)) (rw other at found)
]

-- What a key of the list says of a found identifier.
pub record IsSource (sub suffix id key : Text) (m : List (Text × Text)) : Type 0 where
  pub value : lookup key m ≡ some sub
  pub ends : has_suffix key suffix ≡ true
  pub part : first_part (split key b':') ≡ id

later-IsSource :
    (sub suffix id key j w : Text) (m : List (Text × Text))
    → above j m ≡ true
    → IsSource sub suffix id key m
    → IsSource sub suffix id key ((j, w) ∷ m)
later-IsSource sub suffix id key j w m up source = record {
  value = rw (later_key j w key sub m up source.value) source.value;
  ends = source.ends;
  part = source.part;
}

above-is_sorted : (j : Text) (m : List (Text × Text)) → above j m ≡ true → is_sorted m ≡ true
above-is_sorted j [] up = refl
above-is_sorted j ((i, u) ∷ m) up = ground arith

matching_ids_sound :
    (sub suffix id : Text) (m : List (Text × Text))
    → is_sorted m ≡ true
    → is_among id (matching_ids sub suffix m) ≡ true
    → (key : Text) × IsSource sub suffix id key m
unfolding matching_ids
matching_ids_sound sub suffix id [] sorted found = cc
matching_ids_sound sub suffix id ((j, w) ∷ m) sorted found =
    let later = λ (more : is_among id (matching_ids sub suffix m) ≡ true).
      let (key, source) = matching_ids_sound sub suffix id m (above-is_sorted j m sorted) more in
      let lifted : (k : Text) × IsSource sub suffix id k ((j, w) ∷ m) =
        (key, later-IsSource sub suffix id key j w m sorted source) in
      lifted in
    elim (Bool-cases (has_suffix j suffix && (w == sub))) [
      | inl hit ↦ elim (Bool-cases (first_part (split j b':') == id)) [
        | inl here ↦ (
          j,
          record {
            value = rw (eq_refl j) (ap some ((eq_iff w sub).0 (ground arith)));
            ends = ground arith;
            part = (eq_iff (first_part (split j b':')) id).0 here;
          },
        )
        | inr there ↦ later (rw (hit, there) at found)
      ]
      | inr miss ↦ later (rw miss at found)
    ]

module _ (bolt : Bolt) (b : Bolt.Bucket bolt) where
  open bolt use {get, entries, lookup_entries, entries_sorted}

  -- The search returns exactly the first parts of the keys that end in the suffix and hold the
  -- value.
  pub find_keys_by_sub_and_type_lem :
      (sub suffix id : Text)
      → (ids : List Text) × (find_keys_by_sub_and_type bolt sub suffix (some b) ≡ ok ids)
        × ((is_among id ids ≡ true) ↔ (
            (key : Text) × (get b key ≡ some sub)
            × (has_suffix key suffix ≡ true)
            × (first_part (split key b':') ≡ id)))
  unfolding find_keys_by_sub_and_type
  find_keys_by_sub_and_type_lem sub suffix id = (
    matching_ids sub suffix (entries b),
    refl,
    (λ found. there found, λ (key, held, ends, part). here key held ends part),
  )
    where
      there :
          is_among id (matching_ids sub suffix (entries b)) ≡ true
          → (key : Text) × (get b key ≡ some sub)
            × (has_suffix key suffix ≡ true)
            × (first_part (split key b':') ≡ id)
      there found =
          let (key, source) =
            matching_ids_sound sub suffix id (entries b) (entries_sorted b) found in
          (key, sym (lookup_entries b key) ∙ source.value, source.ends, source.part)

      here :
          (key : Text)
          → get b key ≡ some sub
          → has_suffix key suffix ≡ true
          → first_part (split key b':') ≡ id
          → is_among id (matching_ids sub suffix (entries b)) ≡ true
      here key held ends part =
          rw (← part)
            (matching_ids_complete sub suffix key (entries b) (lookup_entries b key ∙ held) ends)
