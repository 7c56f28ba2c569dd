-- ===== src/Tests/Sections.antt =====
-- idmap/service.go, settings: runs on a concrete store.
use gensokyo_discord.Prelude.{
  true, false, List, [], ◌∷◌, ◌≡◌, ◌≢◌, ◌↔◌, ◌⊎◌, refl, Text, codes, Outcome, ok, err, Option, none,
  some, missing_key, has_suffix, split, contains_byte,
}
use gensokyo_discord.Bolt.Sorted.{sorted_bolt, SortedBucket, sorted_run}
use gensokyo_discord.Bolt.{Bolt, accepts}
use gensokyo_discord.Bolt.Writes.{put_checked}
use gensokyo_discord.Idmap.Keys.{pair_key}
use gensokyo_discord.Idmap.Sections.{
  first_part, join_section_and_key, write_config, read_config, find_keys_by_sub_and_type,
}
use gensokyo_discord.Idmap.Sections.Laws.{
  is_among, read_config-write_config, read_config_ambiguous, find_keys_by_sub_and_type_lem,
}

abbrev Settings : Type 0
Settings = Option SortedBucket

-- a database whose bucket of settings is not there yet
abbrev no_settings : Settings
no_settings = none

sections_run : Unit {0}
unfolding sorted_run write_config put_checked find_keys_by_sub_and_type
sections_run = tt

fits : accepts (join_section_and_key (codes "55") (codes "type")) (codes "guild") ≡ true
unfolding accepts
fits = refl

read_config-write_config_example :
    (db' : Settings) × (write_config sorted_bolt
        (codes "55")
        (codes "type")
        (codes "guild")
        no_settings
      ≡ ok db')
    × (read_config sorted_bolt (codes "55") (codes "type") db' ≡ ok (codes "guild"))
    × ((section' name' : Text)
        → contains_byte b':' section' ≡ false
        → (codes "55" ≢ section') ⊎ (codes "type" ≢ name')
        → read_config sorted_bolt section' name' db' ≡ (elim no_settings as (λ _. Outcome Text) [
          | none ↦ err missing_key
          | some old ↦ read_config sorted_bolt section' name' (some old)
        ]))
read_config-write_config_example =
    read_config-write_config sorted_bolt (codes "55") (codes "type") (codes "guild") no_settings
      fits refl

fits_colon :
    accepts (join_section_and_key (pair_key (codes "a") (codes "b")) (codes "c")) (codes "v") ≡ true
unfolding accepts
fits_colon = refl

read_config_ambiguous_example :
    (db' : Settings) × (write_config sorted_bolt (codes "a:b") (codes "c") (codes "v") no_settings
      ≡ ok db')
    × (read_config sorted_bolt (codes "a") (codes "b:c") db' ≡ ok (codes "v"))
read_config_ambiguous_example =
    read_config_ambiguous sorted_bolt (codes "a") (codes "b") (codes "c") (codes "v") no_settings
      fits_colon

abbrev settings_of : Outcome Settings → SortedBucket
settings_of (ok (some b)) = b
settings_of _ = Bolt.empty sorted_bolt

abbrev one_setting : SortedBucket
one_setting =
    settings_of (write_config sorted_bolt (codes "55") (codes "type") (codes "guild") no_settings)

find_keys_by_sub_and_type_lem_example :
    (ids : List Text) × (find_keys_by_sub_and_type sorted_bolt
        (codes "guild")
        (codes ":type")
        (some one_setting)
      ≡ ok ids)
    × ((is_among (codes "55") ids ≡ true) ↔ (
        (key : Text) × (Bolt.get sorted_bolt one_setting key ≡ some (codes "guild"))
        × (has_suffix key (codes ":type") ≡ true)
        × (first_part (split key b':') ≡ codes "55")))
find_keys_by_sub_and_type_lem_example =
    find_keys_by_sub_and_type_lem sorted_bolt one_setting (codes "guild") (codes ":type")
      (codes "55")

found :
    find_keys_by_sub_and_type sorted_bolt (codes "guild") (codes ":type") (some one_setting)
    ≡ ok (codes "55" ∷ [])
unfolding sections_run
found = refl
