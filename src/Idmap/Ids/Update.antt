-- ===== src/Idmap/Ids/Update.antt =====
-- `UpdateVirtualValue`: an identifier moves to another row.
use gensokyo_discord.Prelude.{
  ℕ, true, false, some, none, ◌≡◌, ◌≢◌, Text, arith, sym, ◌∙◌, ok, err, row_missing, row_taken,
  eq_iff, eq_refl, ◌==◌, Bool-cases, inl, inr, if◌then◌else◌,
}
use mathlib.Core.Path.{subst}
use gensokyo_discord.Strconv.{format_int, row_bytes}
use gensokyo_discord.Bolt.{Bolt}
use gensokyo_discord.Bolt.Writes.{put_checked_accepted}
use gensokyo_discord.Idmap.Keys.{
  row_key, row_key-ne, is_plain, is_plain-not-row, is_plain-ne-row, id-accepts, row_key-accepts,
}
use gensokyo_discord.Idmap.Ids.{update_virtual_value}
use gensokyo_discord.Idmap.Ids.Consistent.{IsConsistent}
use gensokyo_discord.Idmap.Ids.Store.{IsStored, IsFree}

module _ (bolt : Bolt) where
  open bolt use {Bucket, get, delete, get_delete}

  -- A row that nothing leads from is refused.
  pub update_virtual_value_missing :
      (old_row new_row : ℕ) (b : Bucket)
      → get b (row_key old_row) ≡ none
      → update_virtual_value bolt old_row new_row b ≡ err (row_missing old_row)
  unfolding update_virtual_value
  update_virtual_value_missing old_row new_row b missing = rw (missing, update_virtual_value)

  -- So is a row that is in use, the identifier's own row too.
  pub update_virtual_value_taken :
      (old_row new_row : ℕ) (b : Bucket) (id other : Text)
      → get b (row_key old_row) ≡ some id
      → get b (row_key new_row) ≡ some other
      → update_virtual_value bolt old_row new_row b ≡ err (row_taken new_row)
  unfolding update_virtual_value
  update_virtual_value_taken old_row new_row b id other found taken =
      rw (found, update_virtual_value, taken)

  module _ (id : Text) (old_row new_row : ℕ) (b : Bucket) (plain : is_plain id ≡ true)
      (held : IsStored bolt b id old_row) (free : IsFree bolt b new_row) where
    -- What the bucket holds at any key after the move.
    pub get-update_virtual_value :
        (b' : Bucket) × (update_virtual_value bolt old_row new_row b ≡ ok b')
        × ((j : Text)
            → get b' j ≡ (
                if row_key new_row == j
                then some id
                else if row_key old_row == j
                then none
                else if id == j
                then some (row_bytes new_row)
                else get b j))
    unfolding update_virtual_value
    get-update_virtual_value =
        let (b1, e1, get1) =
          put_checked_accepted bolt b id (row_bytes new_row) (id-accepts id new_row plain) in
        let b2 = delete b1 (row_key old_row) in
        let (b3, e3, get3) =
          put_checked_accepted bolt b2 (row_key new_row) id (row_key-accepts id new_row plain) in
        (
          b3,
          rw (held.backward, update_virtual_value, free.unused, e1) e3,
          λ j. rw (get3 j, get_delete b1 (row_key old_row) j, get1 j),
        )

    module _ (b' : Bucket)
        (at : (j : Text)
          → get b' j ≡ (
              if row_key new_row == j
              then some id
              else if row_key old_row == j
              then none
              else if id == j
              then some (row_bytes new_row)
              else get b j)) where
      at_plain :
          (j : Text)
          → is_plain j ≡ true
          → get b' j ≡ (if id == j then some (row_bytes new_row) else get b j)
      at_plain j plain_j = rw (
        at j,
        is_plain-not-row j (format_int new_row) plain_j,
        is_plain-not-row j (format_int old_row) plain_j,
      )

      at_new : get b' (row_key new_row) ≡ some id
      at_new = rw (at (row_key new_row), eq_refl (row_key new_row))

      rows_differ : old_row ≢ new_row
      rows_differ same =
          let clash : none ≡ some id =
            sym free.unused ∙ subst (λ r. get b (row_key r) ≡ some id) same held.backward in
          cc

      at_old : get b' (row_key old_row) ≡ none
      at_old = rw (
        at (row_key old_row),
        row_key-ne new_row old_row free.word held.word (λ e. rows_differ (sym e)),
        eq_refl (row_key old_row),
      )

      moved-IsStored : IsStored bolt b' id new_row
      moved-IsStored = record {
        word = free.word;
        forward = rw (at_plain id plain, eq_refl id);
        backward = at_new;
      }

      row_kept :
          (j : Text) (s : ℕ)
          → id == j ≡ false
          → get b (row_key s) ≡ some j
          → get b' (row_key s) ≡ some j
      row_kept j s other found = elim (Bool-cases (row_key new_row == row_key s)) [
        | inl same ↦
            let e : row_key new_row ≡ row_key s = (eq_iff (row_key new_row) (row_key s)).0 same in
            let clash : none ≡ some j =
              sym free.unused ∙ subst (λ k. get b k ≡ some j) (sym e) found in
            cc
        | inr not_new ↦ elim (Bool-cases (row_key old_row == row_key s)) [
          | inl same ↦
              let e : row_key old_row ≡ row_key s = (eq_iff (row_key old_row) (row_key s)).0 same in
              let both : some id ≡ some j =
                sym held.backward ∙ subst (λ k. get b k ≡ some j) (sym e) found in
              let owner : id ≡ j = cc in let own : id == j ≡ true = (eq_iff id j).1 owner in cc
          | inr not_old ↦
              rw (at (row_key s), not_new, not_old, is_plain-ne-row id (format_int s) plain) found
        ]
      ]

      moved-IsConsistent : IsConsistent bolt b → IsConsistent bolt b'
      moved-IsConsistent ok_b = record {
        leads_back = λ j v plain_j found. elim (Bool-cases (id == j)) [
          | inl same ↦
              let e : id ≡ j = (eq_iff id j).0 same in
              let bytes : some (row_bytes new_row) ≡ some v =
                rw (at_plain j plain_j, same) at found in
              (new_row, free.word, cc, rw (← e) at_new)
          | inr other ↦
              let (s, word, e, back) =
                ok_b.leads_back j v plain_j (rw (at_plain j plain_j, other) at found) in
              (s, word, e, row_kept j s other back)
        ];
      }

      others-IsStored :
          (j : Text) (s : ℕ)
          → is_plain j ≡ true
          → id ≢ j
          → IsStored bolt b j s
          → IsStored bolt b' j s
      others-IsStored j s plain_j distinct h =
          let other : id == j ≡ false = ground (arith, eq_iff id j) in
          record {
            word = h.word;
            forward = rw (at_plain j plain_j, other) h.forward;
            backward = row_kept j s other h.backward;
          }

    -- A plain identifier that has a row moves to any row that is free: the new row leads to it and
    -- it to the new row, the old row leads nowhere, every other identifier keeps its row, and the
    -- bucket stays well formed.
    pub update_virtual_value_lem :
        IsConsistent bolt b
        → (b' : Bucket) × (update_virtual_value bolt old_row new_row b ≡ ok b')
          × IsStored bolt b' id new_row
          × (get b' (row_key old_row) ≡ none)
          × IsConsistent bolt b'
          × ((j : Text) (s : ℕ)
              → is_plain j ≡ true
              → id ≢ j
              → IsStored bolt b j s
              → IsStored bolt b' j s)
    update_virtual_value_lem ok_b =
        let (b', done, at) = get-update_virtual_value in
        (
          b',
          done,
          moved-IsStored b' at,
          at_old b' at,
          moved-IsConsistent b' at ok_b,
          others-IsStored b' at,
        )
