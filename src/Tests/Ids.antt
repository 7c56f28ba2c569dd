-- ===== src/Tests/Ids.antt =====
-- idmap/service.go, single identifiers: runs on a concrete store and a concrete hash.
use gensokyo_discord.Prelude.{
  ℕ, ◌<◌, ◌^◌, true, false, [], ◌∷◌, ◌++◌, ◌≡◌, ◌≢◌, refl, Text, codes, Outcome, ok, err, panicked,
  arith, none, every, sym, ◌∙◌, ok_pair,
}
use mathlib.Core.Path.{subst}
use gensokyo_discord.Strconv.{format_int, parse_int, row_bytes, read_row}
use gensokyo_discord.Strconv.RoundTrip.{parse_int-format_int}
use gensokyo_discord.Bolt.Sorted.{sorted_bolt, SortedBucket, sorted_run}
use gensokyo_discord.Bolt.{Bolt}
use gensokyo_discord.Bolt.Writes.{put_silently}
use gensokyo_discord.Idmap.Keys.{is_plain, row_key}
use gensokyo_discord.Idmap.RowId.{generate_row_id}
use gensokyo_discord.Idmap.RowId.Bounds.{generate_row_id_bounded}
use gensokyo_discord.Idmap.Ids.{store_id, retrieve_row_by_id, update_virtual_value}
use gensokyo_discord.Idmap.Ids.Consistent.{IsConsistent}
use gensokyo_discord.Idmap.Ids.Store.{IsStored, IsFree}
use gensokyo_discord.Idmap.Ids.RoundTrip.{IsReadable, store_id-IsReadable, store_id-injective}
use gensokyo_discord.Idmap.Ids.Counter.{
  IsLedger, IsRun, IsCounted, store_id_counted, empty-IsCounted, empty-IsConsistent,
  store_each-IsRun,
}
use gensokyo_discord.Idmap.Ids.Update.{update_virtual_value_lem}
use gensokyo_discord.Idmap.Ids.Collision.{IsShared, update_then_store_collide}

-- A stand-in for the hash, with enough digits.
abbrev sample_hash : Text → Text
sample_hash id = id ++ codes "a0123456789"

abbrev ann : Text
ann = codes "11"

abbrev bob : Text
bob = codes "12"

abbrev none_yet : SortedBucket
none_yet = Bolt.empty sorted_bolt

abbrev bucket_of {ℓ} : {A : Type ℓ} → Outcome (A × SortedBucket) → SortedBucket
bucket_of (ok (_, b)) = b
bucket_of (err e) = none_yet
bucket_of panicked = none_yet

-- what the runs compute with
ids_run : Unit {0}
unfolding sorted_run store_id put_silently read_row format_int row_bytes parse_int generate_row_id
    is_plain
ids_run = tt

ann_row : ◌≡◌ {A = Outcome ℕ} (generate_row_id sample_hash ann 9) (ok 110123456)
unfolding ids_run
ann_row = refl

abbrev with_ann : SortedBucket
with_ann = bucket_of (store_id sorted_bolt sample_hash true ann none_yet)

abbrev with_both : SortedBucket
with_both = bucket_of (store_id sorted_bolt sample_hash true bob with_ann)

ann_stored : store_id sorted_bolt sample_hash true ann none_yet ≡ ok (110123456, with_ann)
unfolding ids_run
ann_stored = refl

bob_stored : store_id sorted_bolt sample_hash true bob with_ann ≡ ok (120123456, with_both)
unfolding ids_run
bob_stored = refl

plain_ann : is_plain ann ≡ true
unfolding is_plain
plain_ann = refl

plain_bob : is_plain bob ≡ true
unfolding is_plain
plain_bob = refl

distinct : ann ≢ bob
distinct e = ground arith

store_id-IsReadable_example :
    IsConsistent sorted_bolt with_ann
    × IsReadable sorted_bolt with_ann ann 110123456
    × (store_id sorted_bolt sample_hash true ann with_ann ≡ ok (110123456, with_ann))
store_id-IsReadable_example =
    store_id-IsReadable sorted_bolt sample_hash ann none_yet 110123456 with_ann plain_ann
      (empty-IsConsistent sorted_bolt) ann_stored

store_id-injective_example :
    (◌≢◌ {A = ℕ} 110123456 120123456) × IsReadable sorted_bolt with_both ann 110123456
store_id-injective_example =
    store_id-injective sorted_bolt sample_hash ann bob none_yet 110123456 with_ann 120123456
      with_both plain_ann plain_bob distinct (empty-IsConsistent sorted_bolt) ann_stored bob_stored

-- the same identifier, stored again, and the reserved spellings
again : store_id sorted_bolt sample_hash true ann with_both ≡ ok (110123456, with_both)
unfolding ids_run
again = refl

-- An identifier that is spelled like a row key reads the text behind it as eight bytes.
row_as_identifier :
    store_id sorted_bolt sample_hash true (codes "row-110123456") with_ann ≡ panicked
unfolding ids_run
row_as_identifier = refl

-- ascending rows
ascending :
    ◌≡◌ {A = Outcome Text}
      (retrieve_row_by_id sorted_bolt (codes "2") (
        bucket_of (
          store_id sorted_bolt sample_hash false bob
            (bucket_of (store_id sorted_bolt sample_hash false ann none_yet)))))
      (ok bob)
unfolding ids_run retrieve_row_by_id
ascending = refl

abbrev no_store : IsLedger sorted_bolt none_yet 0
no_store = record {
  consistent = empty-IsConsistent sorted_bolt;
  counted = empty-IsCounted sorted_bolt;
}

both_plain : every is_plain (ann ∷ bob ∷ []) ≡ true
unfolding is_plain
both_plain = refl

store_each-IsRun_example :
    (b' : SortedBucket) × (n' : ℕ) × IsRun sorted_bolt sample_hash (ann ∷ bob ∷ []) none_yet 0 b' n'
store_each-IsRun_example =
    store_each-IsRun sorted_bolt sample_hash (ann ∷ bob ∷ []) none_yet 0 both_plain (omega arith)
      no_store

ann_held : IsStored sorted_bolt with_ann ann 110123456
unfolding ids_run
ann_held = record { word = omega arith; forward = refl; backward = refl }

seven-IsFree : IsFree sorted_bolt with_ann 7
unfolding ids_run
seven-IsFree = record { word = omega arith; unused = refl }

update_virtual_value_lem_example :
    (b' : SortedBucket) × (update_virtual_value sorted_bolt 110123456 7 with_ann ≡ ok b')
    × IsStored sorted_bolt b' ann 7
    × (Bolt.get sorted_bolt b' (row_key 110123456) ≡ none)
    × IsConsistent sorted_bolt b'
    × ((j : Text) (s : ℕ)
        → is_plain j ≡ true
        → ann ≢ j
        → IsStored sorted_bolt with_ann j s
        → IsStored sorted_bolt b' j s)
update_virtual_value_lem_example =
    update_virtual_value_lem sorted_bolt ann 110123456 7 with_ann plain_ann ann_held seven-IsFree
      (store_id-IsReadable sorted_bolt sample_hash ann none_yet 110123456 with_ann plain_ann
        (empty-IsConsistent sorted_bolt) ann_stored).0

abbrev first_row : SortedBucket
first_row = bucket_of (store_id sorted_bolt sample_hash false ann none_yet)

one_store :
    (b' : SortedBucket) × (store_id sorted_bolt sample_hash false ann none_yet ≡ ok (1, b'))
    × IsStored sorted_bolt b' ann 1
    × IsConsistent sorted_bolt b'
    × IsCounted sorted_bolt b' 1
one_store =
    store_id_counted sorted_bolt ann none_yet 0 plain_ann (empty-IsCounted sorted_bolt)
      (omega arith) sample_hash (empty-IsConsistent sorted_bolt) refl

first_stored : store_id sorted_bolt sample_hash false ann none_yet ≡ ok (1, first_row)
unfolding ids_run
first_stored = refl

bob_absent : Bolt.get sorted_bolt first_row bob ≡ none
unfolding ids_run
bob_absent = refl

bob_new : Bolt.get sorted_bolt one_store.0 bob ≡ none
bob_new =
    subst (λ b. Bolt.get sorted_bolt b bob ≡ none) (ok_pair (sym first_stored ∙ one_store.1)).1
      bob_absent

update_then_store_collide_example :
    (b1 b2 : SortedBucket) × (update_virtual_value sorted_bolt 1 2 one_store.0 ≡ ok b1)
    × (store_id sorted_bolt sample_hash false bob b1 ≡ ok (2, b2))
    × IsShared sorted_bolt b2 ann bob 2
update_then_store_collide_example =
    update_then_store_collide sorted_bolt sample_hash ann bob 1 1 one_store.0 plain_ann plain_bob
      (λ e. distinct (sym e)) (omega arith)
      (record { consistent = one_store.3; counted = one_store.4 }) one_store.2 bob_new

generate_row_id_bounded_example :
    (r : ℕ) × (generate_row_id sample_hash ann 10 ≡ ok r) × (r < 10 ^ 10)
generate_row_id_bounded_example =
    generate_row_id_bounded sample_hash ann 10 (omega arith) (omega arith) (omega arith)

parse_int-format_int_example : parse_int (format_int 18446744073709551615) ≡ ok 18446744073709551615
parse_int-format_int_example = parse_int-format_int 18446744073709551615 (omega arith)

minus_one : format_int 18446744073709551615 ≡ codes "-1"
unfolding ids_run
minus_one = refl
