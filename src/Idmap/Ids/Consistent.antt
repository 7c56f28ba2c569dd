-- ===== src/Idmap/Ids/Consistent.antt =====
-- The well-formedness of the bucket `ids`, and the write that keeps it.
use gensokyo_discord.Prelude.{
  ℕ, Bool, true, false, none, some, ◌≡◌, Text, ◌==◌, eq_iff, eq_refl, if◌then◌else◌, arith,
  Bool-cases, inl, inr, sym, ◌∙◌,
}
use mathlib.Core.Path.{subst}
use gensokyo_discord.Strconv.{IsWord, row_bytes, format_int}
use gensokyo_discord.Bolt.{Bolt}
use gensokyo_discord.Bolt.Writes.{put_silently, get-put_silently}
use gensokyo_discord.Idmap.Keys.{
  counter_key, row_key, is_plain, is_plain-not-row, is_plain-ne-row, is_plain-not-counter,
  id-accepts, row_key-accepts, counter-accepts,
}
use gensokyo_discord.Idmap.Ids.{write_row}

module _ (bolt : Bolt) where
  open bolt use {Bucket, get}

  -- Every identifier that is there has a row of eight bytes, and that row leads back to it.
  pub record IsConsistent (b : Bucket) : Type 0 where
    pub leads_back :
        (id v : Text)
        → is_plain id ≡ true
        → get b id ≡ some v
        → (row : ℕ) × IsWord row × (v ≡ row_bytes row) × (get b (row_key row) ≡ some id)

  -- What the bucket holds at any key after a new identifier was written.
  pub get-write_row :
      (hash : Bool) (id : Text) (row : ℕ) (b : Bucket) (j : Text)
      → is_plain id ≡ true
      → get (write_row bolt hash id row b) j ≡ (
          if row_key row == j
          then some id
          else if id == j
          then some (row_bytes row)
          else if hash
          then get b j
          else if counter_key == j
          then some (row_bytes row)
          else get b j)
  unfolding write_row
  get-write_row true id row b j plain = rw (
    get-put_silently bolt (put_silently bolt b id (row_bytes row)) (row_key row) id j,
    row_key-accepts id row plain,
    get-put_silently bolt b id (row_bytes row) j,
    id-accepts id row plain,
  )
  get-write_row false id row b j plain = rw (
    get-put_silently bolt
        (put_silently bolt (put_silently bolt b counter_key (row_bytes row)) id (row_bytes row))
        (row_key row) id j,
    row_key-accepts id row plain,
    get-put_silently bolt (put_silently bolt b counter_key (row_bytes row)) id (row_bytes row) j,
    id-accepts id row plain,
    get-put_silently bolt b counter_key (row_bytes row) j,
    counter-accepts row,
  )

  module _ (hash : Bool) (id : Text) (row : ℕ) (b : Bucket) (plain : is_plain id ≡ true) where
    -- A new identifier is read back at its own key, and no other identifier changes.
    pub get-write_row_plain :
        (j : Text)
        → is_plain j ≡ true
        → get (write_row bolt hash id row b) j ≡ (if id == j then some (row_bytes row) else get b j)
    get-write_row_plain j plain_j =
        rw
          (
            get-write_row hash id row b j plain,
            is_plain-not-row j (format_int row) plain_j,
            is_plain-not-counter j plain_j,
          )
          (ground arith)

    -- The new row leads to the identifier, and no other row changes.
    pub get-write_row_row :
        (s : ℕ)
        → get (write_row bolt hash id row b) (row_key s)
          ≡ (if row_key row == row_key s then some id else get b (row_key s))
    get-write_row_row s =
        rw (get-write_row hash id row b (row_key s) plain, is_plain-ne-row id (format_int s) plain)
          (ground arith)

    pub get-write_row_self : get (write_row bolt hash id row b) (row_key row) ≡ some id
    get-write_row_self = rw (get-write_row_row row, eq_refl (row_key row))

    pub old_row_kept :
        (j : Text) (s : ℕ)
        → get b (row_key row) ≡ none
        → get b (row_key s) ≡ some j
        → get (write_row bolt hash id row b) (row_key s) ≡ some j
    old_row_kept j s free found = elim (Bool-cases (row_key row == row_key s)) [
      | inl same ↦
          let e : row_key row ≡ row_key s = (eq_iff (row_key row) (row_key s)).0 same in
          let gone : get b (row_key s) ≡ none = subst (λ k. get b k ≡ none) e free in
          let clash : none ≡ some j = sym gone ∙ found in cc
      | inr other ↦ rw (get-write_row_row s, other) found
    ]

    -- To write a new identifier at a free row keeps the bucket well formed.
    pub write_row-IsConsistent :
        IsWord row
        → get b (row_key row) ≡ none
        → IsConsistent b
        → IsConsistent (write_row bolt hash id row b)
    write_row-IsConsistent word free ok_b = record {
      leads_back = λ j v plain_j found. elim (Bool-cases (id == j)) [
        | inl same ↦
            let e : id ≡ j = (eq_iff id j).0 same in
            let held : some (row_bytes row) ≡ some v =
              rw (get-write_row_plain j plain_j, same) at found in
            (row, word, cc, rw (← e) get-write_row_self)
        | inr other ↦
            let (s, word_s, e, back) =
              ok_b.leads_back j v plain_j (rw (get-write_row_plain j plain_j, other) at found) in
            (s, word_s, e, old_row_kept j s free back)
      ];
    }
