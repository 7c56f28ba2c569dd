-- ===== src/Bolt.antt =====
-- The key-value store under idmap/service.go and shorturl/shorturl.go, github.com/boltdb/bolt, which
-- is not part of the repository: an interface with its documented behaviour. A transaction works
-- on a bucket value, and `Update` keeps the new value only if its function returns no error.
pub mod Sorted
pub mod Writes
use gensokyo_discord.Prelude.{
  ℕ, Bool, true, false, not, ◌&&◌, Option, none, some, List, [], ◌∷◌, ◌≡◌, Text, ◌==◌, leb, eqb,
  ltb, length, if◌then◌else◌, ◌||◌,
}

-- bytes.Compare(s, t) < 0, the order of the keys.
abbrev pub text_ltb : Text → Text → Bool
text_ltb s [] = false
text_ltb [] (y ∷ t) = true
text_ltb (x ∷ s) (y ∷ t) = ltb x y || (eqb x y && text_ltb s t)

-- Every key of the list lies above `k`, in ascending order.
abbrev pub above : Text → List (Text × Text) → Bool
above k [] = true
above k ((j, w) ∷ m) = text_ltb k j && above j m

abbrev pub is_sorted : List (Text × Text) → Bool
is_sorted [] = true
is_sorted ((k, v) ∷ m) = above k m

abbrev pub lookup : Text → List (Text × Text) → Option Text
lookup k [] = none
lookup k ((j, w) ∷ m) = if j == k then some w else lookup k m

-- `Put` refuses a blank key, a key over 32768 bytes and a value over 2 ^ 31 - 2 bytes.
unfoldable pub accepts : Text → Text → Bool
accepts k v = not (k == []) && leb (length k) 32768 && leb (length v) 2147483646

pub record Bolt : Type 1 where
  pub Bucket : Type 0
  -- what `CreateBucketIfNotExists` makes
  pub empty : Bucket
  -- nil is `none`
  pub get : Bucket → Text → Option Text
  -- `none` is an error of `Put`, which leaves the bucket as it was
  pub put : Bucket → Text → Text → Option Bucket
  pub delete : Bucket → Text → Bucket
  -- what `ForEach` and a cursor walk through
  pub entries : Bucket → List (Text × Text)
  pub get_empty : (k : Text) → get empty k ≡ none
  pub put_accepted :
      (b : Bucket) (k v : Text) → accepts k v ≡ true → (b' : Bucket) × (put b k v ≡ some b')
  pub put_refused : (b : Bucket) (k v : Text) → accepts k v ≡ false → put b k v ≡ none
  pub get_put :
      (b b' : Bucket) (k v j : Text)
      → put b k v ≡ some b'
      → get b' j ≡ (if k == j then some v else get b j)
  pub get_delete :
      (b : Bucket) (k j : Text) → get (delete b k) j ≡ (if k == j then none else get b j)
  pub lookup_entries : (b : Bucket) (k : Text) → lookup k (entries b) ≡ get b k
  pub entries_sorted : (b : Bucket) → is_sorted (entries b) ≡ true
