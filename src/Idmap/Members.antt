-- ===== src/Idmap/Members.antt =====
-- `FindSubKeysById` of idmap/service.go: the second parts of the pairs of an identifier, found with a
-- cursor that seeks the first key and stops behind the last.
pub mod Scan
use gensokyo_discord.Prelude.{
  ℕ, Bool, true, false, List, [], ◌∷◌, ◌++◌, Text, Outcome, ok, if◌then◌else◌, has_prefix, split,
}
use gensokyo_discord.Bolt.{Bolt, text_ltb}

-- `c.Seek(prefix)`: what the cursor has not passed.
unfoldable pub seek : Text → List (Text × Text) → List (Text × Text)
seek prefix [] = []
seek prefix ((key, value) ∷ rest) =
    let later = seek prefix rest in if text_ltb key prefix then later else (key, value) ∷ rest

-- `if len(keyParts) == 2 { subKeys = append(subKeys, keyParts[1]) }`, in front of the rest.
abbrev pub add_second : List Text → List Text → List Text
add_second (a ∷ b ∷ []) found = b ∷ found
add_second _ found = found

-- The loop, which ends at the first key without the prefix.
unfoldable pub walk : Text → List (Text × Text) → List Text
unfolding split
walk prefix [] = []
walk prefix ((key, value) ∷ rest) =
    let found = add_second (split key b':') (walk prefix rest) in
    if has_prefix key prefix then found else []

module _ (bolt : Bolt) where
  open bolt use {Bucket, entries}

  unfoldable pub find_sub_keys_by_id : Text → Bucket → Outcome (List Text)
  unfolding seek walk
  find_sub_keys_by_id id b =
      let prefix = id ++ (b':' ∷ []) in ok (walk prefix (seek prefix (entries b)))
