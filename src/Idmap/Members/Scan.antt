-- ===== src/Idmap/Members/Scan.antt =====
-- The cursor meets every key with the prefix: in a sorted bucket these keys are next to each other.
use gensokyo_discord.Prelude.{
  true, false, List, [], ◌∷◌, ◌++◌, ◌≡◌, refl, ap, sym, Text, ok, if◌then◌else◌, has_prefix, split,
  arith, Bool-cases, inl, inr,
}
use gensokyo_discord.Bolt.{Bolt, text_ltb, above, is_sorted}
use gensokyo_discord.Bolt.Sorted.{above_lower, sorted_of_above}
use gensokyo_discord.Bolt.Sorted.Order.{text_ltb_trans}
use gensokyo_discord.Idmap.Members.{seek, walk, add_second, find_sub_keys_by_id}

-- What is meant: the second parts of all keys of two parts that have the prefix, in key order.
unfoldable pub with_prefix : Text → List (Text × Text) → List Text
with_prefix prefix [] = []
with_prefix prefix ((key, value) ∷ rest) =
    let found = with_prefix prefix rest in
    if has_prefix key prefix then add_second (split key b':') found else found

-- A key between a prefix and a longer key with that prefix has it too.
between :
    (p k k' : Text)
    → text_ltb k p ≡ false
    → text_ltb k k' ≡ true
    → has_prefix k' p ≡ true
    → has_prefix k p ≡ true
between [] k k' low lt h = refl
between (c ∷ p) k [] low lt h = cc
between (c ∷ p) [] (d' ∷ k') low lt h = cc
between (c ∷ p) (d ∷ k) (d' ∷ k') low lt h = ground (arith, between p k k')

prefix_not_below : (p k : Text) → has_prefix k p ≡ true → text_ltb k p ≡ false
prefix_not_below [] k h = refl
prefix_not_below (c ∷ p) [] h = cc
prefix_not_below (c ∷ p) (d ∷ k) h = ground (arith, prefix_not_below p k)

none_behind :
    (p k : Text) (m : List (Text × Text))
    → text_ltb k p ≡ false
    → has_prefix k p ≡ false
    → above k m ≡ true
    → with_prefix p m ≡ []
unfolding with_prefix
none_behind p k [] low miss up = refl
none_behind p k ((j, w) ∷ m) low miss up =
    let lt : text_ltb k j ≡ true = ground arith in
    let next : above j m ≡ true = ground arith in
    let also : has_prefix j p ≡ false = ground (arith, between p k j) in
    rw also (none_behind p k m low miss (above_lower k j m lt next))

not_below : (p k j : Text) → text_ltb k p ≡ false → text_ltb k j ≡ true → text_ltb j p ≡ false
not_below p k j low lt = ground (arith, text_ltb_trans k j p)

walk-with_prefix :
    (p k v : Text) (m : List (Text × Text))
    → text_ltb k p ≡ false
    → above k m ≡ true
    → walk p ((k, v) ∷ m) ≡ with_prefix p ((k, v) ∷ m)
unfolding walk with_prefix
walk-with_prefix p k v [] low up = ground arith
walk-with_prefix p k v ((j, w) ∷ m) low up = elim (Bool-cases (has_prefix k p)) [
  | inl hit ↦
      let lt : text_ltb k j ≡ true = ground arith in
      let next : above j m ≡ true = ground arith in
      let high : text_ltb j p ≡ false = not_below p k j low lt in
      rw hit (ap (add_second (split k b':')) (walk-with_prefix p j w m high next))
  | inr miss ↦ rw miss (sym (none_behind p k ((j, w) ∷ m) low miss up))
]

seek-with_prefix :
    (p : Text) (m : List (Text × Text)) → is_sorted m ≡ true → walk p (seek p m) ≡ with_prefix p m
unfolding seek with_prefix
seek-with_prefix p [] sorted = unfold walk in refl
seek-with_prefix p ((k, v) ∷ m) sorted = elim (Bool-cases (text_ltb k p)) [
  | inl below ↦
      let miss : has_prefix k p ≡ false = ground (arith, prefix_not_below p k) in
      rw (below, miss) (seek-with_prefix p m (sorted_of_above k m sorted))
  | inr reached ↦ rw reached (walk-with_prefix p k v m reached sorted)
]

module _ (bolt : Bolt) (b : Bolt.Bucket bolt) where
  open bolt use {entries, entries_sorted}

  -- The cursor misses no key and takes none too many: the result is what a search through the
  -- whole bucket for keys with the prefix `id:` gives, in the same order.
  pub find_sub_keys_by_id_lem :
      (id : Text) → find_sub_keys_by_id bolt id b ≡ ok (with_prefix (id ++ (b':' ∷ [])) (entries b))
  unfolding find_sub_keys_by_id
  find_sub_keys_by_id_lem id =
      ap ok (seek-with_prefix (id ++ (b':' ∷ [])) (entries b) (entries_sorted b))
