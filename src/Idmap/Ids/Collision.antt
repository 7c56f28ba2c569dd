-- ===== src/Idmap/Ids/Collision.antt =====
-- `UpdateVirtualValue` does not move the counter of `StoreID`: with ascending rows, an identifier
-- that was moved to the next row loses it to the next identifier that is stored.
use gensokyo_discord.Prelude.{
  ℕ, ◌+◌, ◌<◌, true, false, some, none, ◌≡◌, ◌≢◌, Text, arith, ap, ◌∙◌, ok, eq_iff, eq_refl, ◌==◌,
}
use native.Mathlib.Nat.{mod-eq_of_lt}
use gensokyo_discord.Strconv.{format_int, row_bytes, two_64}
use gensokyo_discord.Bolt.{Bolt}
use gensokyo_discord.Idmap.Keys.{
  counter_key, row_key, is_plain, is_plain-not-row, is_plain-ne-counter,
}
use gensokyo_discord.Idmap.Ids.{next_row, write_row, store_id, update_virtual_value}
use gensokyo_discord.Idmap.Ids.Consistent.{get-write_row_plain, get-write_row_self}
use gensokyo_discord.Idmap.Ids.Store.{IsStored, IsFree, chosen_row, store_id_new}
use gensokyo_discord.Idmap.Ids.Counter.{IsLedger}
use gensokyo_discord.Idmap.Ids.Update.{get-update_virtual_value}

module _ (bolt : Bolt) where
  open bolt use {Bucket, get}

  -- Two identifiers have the row, and it leads to the later one only.
  pub record IsShared (b : Bucket) (id other : Text) (row : ℕ) : Type 0 where
    pub first : get b id ≡ some (row_bytes row)
    pub second : get b other ≡ some (row_bytes row)
    pub backward : get b (row_key row) ≡ some other

  next_row_same :
      (b b' : Bucket) → get b counter_key ≡ get b' counter_key → next_row bolt b ≡ next_row bolt b'
  unfolding next_row
  next_row_same b b' e = rw e

  module _ (md5_hex : Text → Text) (id other : Text) (row n : ℕ) (b : Bucket)
      (plain : is_plain id ≡ true) (plain_other : is_plain other ≡ true) (distinct : other ≢ id)
      (room : n + 1 < two_64) (ledger : IsLedger bolt b n) (held : IsStored bolt b id row)
      (new : get b other ≡ none) where
    -- From any well-formed bucket with ascending rows: move an identifier to the row after the
    -- last one, and store a new identifier. Both calls succeed, and both identifiers now have the
    -- same row, which leads to the second only.
    pub update_then_store_collide :
        (b1 b2 : Bucket) × (update_virtual_value bolt row (n + 1) b ≡ ok b1)
        × (store_id bolt md5_hex false other b1 ≡ ok (n + 1, b2))
        × IsShared b2 id other (n + 1)
    update_then_store_collide =
        let free : IsFree bolt b (n + 1) = record {
          word = room;
          unused = ledger.counted.free_above (n + 1) room (omega arith);
        } in
        let (b1, moved, at) = get-update_virtual_value bolt id row (n + 1) b plain held free in
        let apart : other == id ≡ false = ground (arith, eq_iff other id) in
        let apart' : id == other ≡ false = ground (arith, eq_iff id other) in
        let same_counter : get b1 counter_key ≡ get b counter_key =
          rw (at counter_key, is_plain-ne-counter id plain) in
        let missing : get b1 other ≡ none =
          rw
            (
              at other,
              is_plain-not-row other (format_int (n + 1)) plain_other,
              is_plain-not-row other (format_int row) plain_other,
              apart',
            )
            new in
        let moved_id : get b1 id ≡ some (row_bytes (n + 1)) = rw (
          at id,
          is_plain-not-row id (format_int (n + 1)) plain,
          is_plain-not-row id (format_int row) plain,
          eq_refl id,
        ) in
        let chosen : chosen_row bolt md5_hex false other b1 ≡ ok (n + 1) =
          next_row_same b1 b same_counter ∙ ledger.counted.next ∙ ap ok (mod-eq_of_lt room) in
        (
          b1,
          write_row bolt false other (n + 1) b1,
          moved,
          store_id_new bolt md5_hex false other b1 (n + 1) missing chosen,
          record {
            first =
                rw (get-write_row_plain bolt false other (n + 1) b1 plain_other id plain, apart)
                  moved_id;
            second = rw (
              get-write_row_plain bolt false other (n + 1) b1 plain_other other plain_other,
              eq_refl other,
            );
            backward = get-write_row_self bolt false other (n + 1) b1 plain_other;
          },
        )
