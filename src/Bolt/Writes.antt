-- ===== src/Bolt/Writes.antt =====
-- The two ways in which the program calls `Put`: with the error dropped, and with the error
-- returned from the transaction.
use gensokyo_discord.Prelude.{
  true, false, ◌&&◌, Option, none, some, ◌≡◌, Text, ◌==◌, if◌then◌else◌, Bool-cases, inl, inr,
  Outcome, ok, err, put_failed,
}
use gensokyo_discord.Bolt.{Bolt, accepts}

module _ (bolt : Bolt) where
  open bolt use {Bucket, get, put, put_accepted, put_refused, get_put}

  abbrev kept : Bucket → Option Bucket → Bucket
  kept b none = b
  kept b (some b') = b'

  -- `b.Put(k, v)` as a statement: a refused write is passed over in silence.
  unfoldable pub put_silently : Bucket → Text → Text → Bucket
  put_silently b k v = kept b (put b k v)

  abbrev or_failed : Option Bucket → Outcome Bucket
  or_failed none = err put_failed
  or_failed (some b') = ok b'

  -- `if err := b.Put(k, v); err != nil { return err }`
  unfoldable pub put_checked : Bucket → Text → Text → Outcome Bucket
  put_checked b k v = or_failed (put b k v)

  pub get-put_silently :
      (b : Bucket) (k v j : Text)
      → get (put_silently b k v) j ≡ (if accepts k v && (k == j) then some v else get b j)
  unfolding put_silently
  get-put_silently b k v j = elim (Bool-cases (accepts k v)) [
    | inl fits ↦ let (b', e) = put_accepted b k v fits in rw (e, fits) (get_put b b' k v j e)
    | inr refused ↦ rw (put_refused b k v refused, refused)
  ]

  pub put_checked_accepted :
      (b : Bucket) (k v : Text)
      → accepts k v ≡ true
      → (b' : Bucket) × (put_checked b k v ≡ ok b')
        × ((j : Text) → get b' j ≡ (if k == j then some v else get b j))
  unfolding put_checked
  put_checked_accepted b k v fits =
      let (b', e) = put_accepted b k v fits in (b', rw e, λ j. get_put b b' k v j e)

  pub put_checked_refused :
      (b : Bucket) (k v : Text) → accepts k v ≡ false → put_checked b k v ≡ err put_failed
  unfolding put_checked
  put_checked_refused b k v refused = rw (put_refused b k v refused)
