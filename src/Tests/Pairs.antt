-- ===== src/Tests/Pairs.antt =====
-- idmap/service.go, pairs: runs on a concrete store and a concrete hash.
use gensokyo_discord.Prelude.{
  true, [], ◌∷◌, ◌≡◌, ◌≢◌, refl, Text, codes, Outcome, ok, err, panicked, arith, none,
}
use gensokyo_discord.Strconv.{format_int, parse_int}
use gensokyo_discord.Bolt.Sorted.{sorted_bolt, SortedBucket, sorted_run}
use gensokyo_discord.Bolt.{Bolt}
use gensokyo_discord.Bolt.Writes.{put_silently}
use gensokyo_discord.Idmap.Keys.{pair_key}
use gensokyo_discord.Idmap.RowId.{generate_row_id}
use gensokyo_discord.Idmap.Pairs.{
  store_id_pro, retrieve_virtual_value_pro, retrieve_real_value_pro, update_virtual_value_pro,
  scan_rows,
}
use gensokyo_discord.Idmap.Pairs.Scan.{scan_rows-pair_key}
use gensokyo_discord.Idmap.Pairs.RoundTrip.{
  IsReadable, IsPaired, is_part, store_id_pro-IsReadable, store_id_pro_takes_over,
}
use gensokyo_discord.Idmap.Pairs.Update.{update_virtual_value_pro_lem}
use gensokyo_discord.Idmap.Members.{find_sub_keys_by_id}
use gensokyo_discord.Idmap.Members.Scan.{with_prefix, find_sub_keys_by_id_lem}

-- A stand-in for the hash, under which every identifier has the same nine digits.
abbrev weak_hash : Text → Text
weak_hash id = codes "a123456789"

abbrev room : Text
room = codes "55"

abbrev ann : Text
ann = codes "11"

abbrev bob : Text
bob = codes "12"

abbrev none_yet : SortedBucket
none_yet = Bolt.empty sorted_bolt

abbrev bucket_of {ℓ} : {A : Type ℓ} → Outcome (A × SortedBucket) → SortedBucket
bucket_of (ok (_, b)) = b
bucket_of (err e) = none_yet
bucket_of panicked = none_yet

pairs_run : Unit {0}
unfolding sorted_run store_id_pro put_silently format_int parse_int generate_row_id is_part
pairs_run = tt

room_part : is_part room ≡ true
unfolding pairs_run
room_part = refl

ann_part : is_part ann ≡ true
unfolding pairs_run
ann_part = refl

bob_part : is_part bob ≡ true
unfolding pairs_run
bob_part = refl

hashed : (id : Text) → generate_row_id weak_hash id 9 ≡ ok 123456789
unfolding pairs_run
hashed id = refl

abbrev rows : Text
rows = pair_key (format_int 123456789) (format_int 123456789)

store_id_pro-IsReadable_example :
    (b' : SortedBucket) × (store_id_pro sorted_bolt weak_hash room ann none_yet
      ≡ ok ((123456789, 123456789), b'))
    × IsReadable sorted_bolt b' room ann 123456789 123456789
    × ((j : Text)
        → j ≢ pair_key room ann
        → j ≢ rows
        → Bolt.get sorted_bolt b' j ≡ Bolt.get sorted_bolt none_yet j)
store_id_pro-IsReadable_example =
    store_id_pro-IsReadable sorted_bolt weak_hash room ann none_yet 123456789 123456789 room_part
      ann_part refl (hashed room) (hashed ann)

abbrev with_ann : SortedBucket
with_ann = bucket_of (store_id_pro sorted_bolt weak_hash room ann none_yet)

ann-IsPaired : IsPaired sorted_bolt with_ann room ann 123456789 123456789
unfolding pairs_run
ann-IsPaired = record {
  forward = refl;
  backward = refl;
  row_bound = omega arith;
  subrow_bound = omega arith;
}

bob_new : Bolt.get sorted_bolt with_ann (pair_key room bob) ≡ none
unfolding pairs_run
bob_new = refl

not_rows : pair_key room ann ≢ rows
unfolding pairs_run
not_rows e = ground arith

store_id_pro_takes_over_example :
    (b' : SortedBucket) × (store_id_pro sorted_bolt weak_hash room bob with_ann
      ≡ ok ((123456789, 123456789), b'))
    × (retrieve_virtual_value_pro sorted_bolt room ann b'
        ≡ ok (format_int 123456789, format_int 123456789))
    × (retrieve_real_value_pro sorted_bolt 123456789 123456789 b' ≡ ok (room, bob))
store_id_pro_takes_over_example =
    store_id_pro_takes_over sorted_bolt weak_hash room bob with_ann 123456789 123456789 room_part
      bob_part bob_new (hashed room) (hashed bob) room ann room_part ann_part ann-IsPaired not_rows
      (λ e. ground arith)

new_free : Bolt.get sorted_bolt with_ann (pair_key (format_int 7) (format_int 8)) ≡ none
unfolding pairs_run
new_free = refl

update_virtual_value_pro_lem_example :
    (b' : SortedBucket) × (update_virtual_value_pro sorted_bolt 123456789 7 123456789 8 with_ann
      ≡ ok b')
    × IsReadable sorted_bolt b' room ann 7 8
    × (rows ≢ pair_key room ann → Bolt.get sorted_bolt b' rows ≡ none)
    × ((j : Text)
        → j ≢ pair_key room ann
        → j ≢ rows
        → j ≢ pair_key (format_int 7) (format_int 8)
        → Bolt.get sorted_bolt b' j ≡ Bolt.get sorted_bolt with_ann j)
update_virtual_value_pro_lem_example =
    update_virtual_value_pro_lem sorted_bolt room ann 123456789 7 123456789 8 with_ann room_part
      ann_part (omega arith) (omega arith) ann-IsPaired new_free

scan_rows-pair_key_example : scan_rows (pair_key (format_int 12) (format_int 9)) ≡ (12, 9)
scan_rows-pair_key_example = scan_rows-pair_key 12 9 (omega arith) (omega arith)

find_sub_keys_by_id_lem_example :
    find_sub_keys_by_id sorted_bolt room with_ann
    ≡ ok (with_prefix (codes "55:") (Bolt.entries sorted_bolt with_ann))
find_sub_keys_by_id_lem_example = find_sub_keys_by_id_lem sorted_bolt with_ann room

members : find_sub_keys_by_id sorted_bolt room with_ann ≡ ok (ann ∷ [])
unfolding pairs_run find_sub_keys_by_id
members = refl
