-- ===== src/Idmap/Sections.antt =====
-- The settings of idmap/service.go: `WriteConfig`, `ReadConfig` and `FindKeysBySubAndType`, on the
-- bucket `config`, which the first write makes.
pub mod Laws
use gensokyo_discord.Prelude.{
  ℕ, Bool, true, false, ◌&&◌, Option, none, some, List, [], ◌∷◌, Text, ◌==◌, Outcome, ok, err,
  ◌>>=◌, some_or, no_bucket, missing_key, if◌then◌else◌, has_suffix, split,
}
use gensokyo_discord.Bolt.{Bolt}
use gensokyo_discord.Bolt.Writes.{put_checked}
use gensokyo_discord.Idmap.Keys.{pair_key}

-- `strings.Split(key, ":")[0]`
abbrev pub first_part : List Text → Text
first_part [] = []
first_part (part ∷ parts) = part

-- joinSectionAndKey
abbrev pub join_section_and_key : Text → Text → Text
join_section_and_key = pair_key

-- the loop of `ForEach`
unfoldable pub matching_ids : Text → Text → List (Text × Text) → List Text
unfolding split has_suffix
matching_ids sub suffix [] = []
matching_ids sub suffix ((key, value) ∷ rest) =
    let ids = matching_ids sub suffix rest in
    if has_suffix key suffix && (value == sub) then first_part (split key b':') ∷ ids else ids

module _ (bolt : Bolt) where
  open bolt use {Bucket, empty, get, entries}

  -- `none` is a database without the bucket.
  abbrev pub or_empty : Option Bucket → Bucket
  or_empty none = empty
  or_empty (some b) = b

  unfoldable pub write_config : Text → Text → Text → Option Bucket → Outcome (Option Bucket)
  write_config section name value db = do
    b ← put_checked bolt (or_empty db) (join_section_and_key section name) value
    ok (some b)

  unfoldable pub read_config : Text → Text → Option Bucket → Outcome Text
  read_config section name db = do
    b ← some_or db no_bucket
    some_or (get b (join_section_and_key section name)) missing_key

  unfoldable pub find_keys_by_sub_and_type : Text → Text → Option Bucket → Outcome (List Text)
  unfolding matching_ids
  find_keys_by_sub_and_type sub suffix db = do
    b ← some_or db no_bucket
    ok (matching_ids sub suffix (entries b))
