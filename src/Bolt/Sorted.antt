-- ===== src/Bolt/Sorted.antt =====
-- A store that meets the interface: the entries in a sorted list.
pub mod Order
use gensokyo_discord.Prelude.{
  ℕ, Bool, true, false, not, ◌&&◌, Option, none, some, List, [], ◌∷◌, ◌≡◌, refl, Text, ◌==◌, eq_iff,
  eq_refl, if◌then◌else◌, arith, Bool-cases, inl, inr, ap, sym,
}
use gensokyo_discord.Bolt.{Bolt, text_ltb, above, is_sorted, lookup, accepts}
use Order.{text_ltb_trans, text_ltb_total}

unfoldable pub insert : Text → Text → List (Text × Text) → List (Text × Text)
insert key value [] = (key, value) ∷ []
insert key value ((first, held) ∷ entries) =
    let further = insert key value entries in
    if first == key
    then (key, value) ∷ entries
    else if text_ltb key first
    then (key, value) ∷ (first, held) ∷ entries
    else (first, held) ∷ further

unfoldable pub without : Text → List (Text × Text) → List (Text × Text)
without key [] = []
without key ((first, held) ∷ entries) =
    let further = without key entries in if first == key then further else (first, held) ∷ further

lookup-insert :
    (key value asked : Text) (entries : List (Text × Text))
    → (if key == asked then some value else lookup asked entries)
      ≡ lookup asked (insert key value entries)
unfolding insert
lookup-insert key value asked [] = refl
lookup-insert key value asked ((first, held) ∷ entries) =
    let further = lookup-insert key value asked entries in
    ground (eq_iff first asked, further, eq_iff first key, eq_iff key asked, arith)

pub lookup-without :
    (key asked : Text) (entries : List (Text × Text))
    → lookup asked (without key entries) ≡ (if key == asked then none else lookup asked entries)
unfolding without
lookup-without key asked [] = ground arith
lookup-without key asked ((first, held) ∷ entries) =
    let further = lookup-without key asked entries in
    ground (eq_iff first asked, further, eq_iff first key, eq_iff key asked, arith)

above-insert :
    (j k v : Text) (m : List (Text × Text))
    → above j m ≡ true
    → text_ltb j k ≡ true
    → above j (insert k v m) ≡ true
unfolding insert
above-insert j k v [] h lt = rw lt
above-insert j k v ((i, w) ∷ m) h lt = elim (Bool-cases (i == k)) [
  | inl same ↦
      let e : i ≡ k = (eq_iff i k).0 same in
      rw same (ground (arith, ap (λ (t : Text). above t m) e))
  | inr other ↦ ground (arith, other, text_ltb_total i k, above-insert i k v m)
]

pub insert-sorted :
    (k v : Text) (m : List (Text × Text)) → is_sorted m ≡ true → is_sorted (insert k v m) ≡ true
unfolding insert
insert-sorted k v [] h = refl
insert-sorted k v ((i, w) ∷ m) h = elim (Bool-cases (i == k)) [
  | inl same ↦
      let e : i ≡ k = (eq_iff i k).0 same in
      rw same (ground (arith, ap (λ (t : Text). above t m) e))
  | inr other ↦ ground (arith, other, text_ltb_total i k, above-insert i k v m)
]

pub above_lower :
    (j k : Text) (m : List (Text × Text))
    → text_ltb j k ≡ true
    → above k m ≡ true
    → above j m ≡ true
above_lower j k [] lt h = refl
above_lower j k ((i, w) ∷ m) lt h = ground (arith, text_ltb_trans j k i)

above-without :
    (j k : Text) (m : List (Text × Text)) → above j m ≡ true → above j (without k m) ≡ true
unfolding without
above-without j k [] h = refl
above-without j k ((i, w) ∷ m) h =
    ground (arith, above-without i k m, above_lower j i (without k m))

pub sorted_of_above : (i : Text) (m : List (Text × Text)) → above i m ≡ true → is_sorted m ≡ true
sorted_of_above i [] h = refl
sorted_of_above i ((j, w) ∷ m) h = ground arith

pub without-sorted :
    (k : Text) (m : List (Text × Text)) → is_sorted m ≡ true → is_sorted (without k m) ≡ true
unfolding without
without-sorted k [] h = refl
without-sorted k ((i, w) ∷ m) h = elim (Bool-cases (i == k)) [
  | inl same ↦ rw same (without-sorted k m (sorted_of_above i m h))
  | inr other ↦ rw other (above-without i k m h)
]

pub record SortedBucket : Type 0 where
  pub items : List (Text × Text)
  pub ordered : is_sorted items ≡ true

unfoldable pub store : SortedBucket → Text → Text → SortedBucket
unfolding insert
store b k v = record { items = insert k v b.items; ordered = insert-sorted k v b.items b.ordered }

unfoldable pub erase : SortedBucket → Text → SortedBucket
unfolding without
erase b k = record { items = without k b.items; ordered = without-sorted k b.items b.ordered }

pub lookup-erase :
    (b : SortedBucket) (k j : Text)
    → lookup j (erase b k).items ≡ (if k == j then none else lookup j b.items)
unfolding erase
lookup-erase b k j = lookup-without k j b.items

unfoldable pub put_sorted : SortedBucket → Text → Text → Option SortedBucket
unfolding store
put_sorted b k v = if accepts k v then some (store b k v) else none

pub put_sorted_accepted :
    (b : SortedBucket) (k v : Text)
    → accepts k v ≡ true
    → (b' : SortedBucket) × (put_sorted b k v ≡ some b')
unfolding put_sorted
put_sorted_accepted b k v h = (store b k v, rw h)

pub put_sorted_refused :
    (b : SortedBucket) (k v : Text) → accepts k v ≡ false → put_sorted b k v ≡ none
unfolding put_sorted
put_sorted_refused b k v h = rw h

pub lookup-put_sorted :
    (b b' : SortedBucket) (k v j : Text)
    → put_sorted b k v ≡ some b'
    → lookup j b'.items ≡ (if k == j then some v else lookup j b.items)
unfolding put_sorted
lookup-put_sorted b b' k v j h = elim (Bool-cases (accepts k v)) [
  | inl fits ↦
      let e : some (store b k v) ≡ some b' = rw fits at h in
      let same : store b k v ≡ b' = cc in
      rw (← same) (unfold store in sym (lookup-insert k v j b.items))
  | inr refused ↦ let e : none ≡ some b' = rw refused at h in cc
]

-- The interface's promises can be met.
abbrev pub sorted_bolt : Bolt
sorted_bolt = record {
  Bucket = SortedBucket;
  empty = record { items = []; ordered = refl };
  get = λ b k. lookup k b.items;
  put = put_sorted;
  delete = erase;
  entries = λ b. b.items;
  get_empty = λ k. refl;
  put_accepted = put_sorted_accepted;
  put_refused = put_sorted_refused;
  get_put = lookup-put_sorted;
  get_delete = lookup-erase;
  lookup_entries = λ b k. refl;
  entries_sorted = λ b. b.ordered;
}

-- What a run on this store computes with.
unfoldable pub sorted_run : Unit {0}
unfolding put_sorted insert erase accepts
sorted_run = tt
