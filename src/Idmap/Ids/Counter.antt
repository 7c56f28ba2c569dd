-- ===== src/Idmap/Ids/Counter.antt =====
-- Storing identifiers under ascending rows.
use gensokyo_discord.Prelude.{
  ℕ, ◌+◌, ◌%◌, ◌<◌, ◌≤◌, true, false, some, none, List, [], ◌∷◌, length, every, ◌≡◌, refl, Text,
  arith, ap, sym, ◌∙◌, Outcome, ok, ok-injective, ◌>>=◌, Option-cases, inl, inr,
}
use mathlib.Core.Path.{subst}
use native.Mathlib.Nat.{mod-eq_of_lt}
use gensokyo_discord.Strconv.{IsWord, row_bytes, two_64}
use gensokyo_discord.Strconv.Bytes.{read_row-row_bytes}
use gensokyo_discord.Bolt.{Bolt}
use gensokyo_discord.Idmap.Keys.{counter_key, row_key, row_key-ne, is_plain, is_plain-ne-counter}
use gensokyo_discord.Idmap.Ids.{next_row, write_row, store_id}
use gensokyo_discord.Idmap.Ids.Consistent.{IsConsistent, get-write_row, get-write_row_row}
use gensokyo_discord.Idmap.Ids.Store.{
  IsStored, IsFree, chosen_row, store_id_old, store_id_new, store_id_lem, store_id_keeps,
}

module _ (bolt : Bolt) where
  open bolt use {Bucket, get, empty, get_empty}

  -- `n` is the row that was given out last, and no later row is in use.
  pub record IsCounted (b : Bucket) (n : ℕ) : Type 0 where
    pub next : next_row bolt b ≡ ok ((n + 1) % two_64)
    pub free_above : (r : ℕ) → IsWord r → n < r → get b (row_key r) ≡ none

  pub empty-IsCounted : IsCounted empty 0
  unfolding next_row
  empty-IsCounted = record {
    next = rw (get_empty counter_key, next_row);
    free_above = λ r _ _. get_empty (row_key r);
  }

  pub empty-IsConsistent : IsConsistent bolt empty
  empty-IsConsistent = record {
    leads_back = λ id v _ found. let clash : none ≡ some v = sym (get_empty id) ∙ found in cc;
  }

  module _ (id : Text) (b : Bucket) (n : ℕ) (plain : is_plain id ≡ true) (count : IsCounted b n)
      (room : n + 1 < two_64) where
    counter-write_row :
        get (write_row bolt false id (n + 1) b) counter_key ≡ some (row_bytes (n + 1))
    counter-write_row =
        rw (get-write_row bolt false id (n + 1) b counter_key plain, is_plain-ne-counter id plain)

    write_row-IsCounted : IsCounted (write_row bolt false id (n + 1) b) (n + 1)
    unfolding next_row
    write_row-IsCounted = record {
      next = rw (counter-write_row, next_row, read_row-row_bytes (n + 1) room);
      free_above = λ r word above.
          rw
            (
              get-write_row_row bolt false id (n + 1) b plain r,
              row_key-ne (n + 1) r room word (omega arith),
            )
            (count.free_above r word (omega arith));
    }

    counter_chosen :
        (md5_hex : Text → Text) (r : ℕ) → chosen_row bolt md5_hex false id b ≡ ok r → r ≡ n + 1
    counter_chosen md5_hex r chosen = ok-injective (sym chosen ∙ count.next) ∙ mod-eq_of_lt room

    pub counted-IsFree :
        (md5_hex : Text → Text) (r : ℕ)
        → chosen_row bolt md5_hex false id b ≡ ok r
        → IsFree bolt b r
    counted-IsFree md5_hex r chosen =
        let e : n + 1 ≡ r = sym (counter_chosen md5_hex r chosen) in
        subst (IsFree bolt b) e
          (record { word = room; unused = count.free_above (n + 1) room (omega arith) })

    -- With ascending rows, a new identifier gets the row after the last one, whatever it is spelled
    -- like; the bucket stays well formed and the counter stands at the new row.
    pub store_id_counted :
        (md5_hex : Text → Text)
        → IsConsistent bolt b
        → get b id ≡ none
        → (b' : Bucket) × (store_id bolt md5_hex false id b ≡ ok (n + 1, b'))
          × IsStored bolt b' id (n + 1)
          × IsConsistent bolt b'
          × IsCounted b' (n + 1)
    store_id_counted md5_hex ok_b missing =
        let chosen : chosen_row bolt md5_hex false id b ≡ ok (n + 1) =
          count.next ∙ ap ok (mod-eq_of_lt room) in
        let done = store_id_new bolt md5_hex false id b (n + 1) missing chosen in
        let (held, ok_b') =
          store_id_lem bolt md5_hex false id b (n + 1) (write_row bolt false id (n + 1) b) plain
            ok_b done (counted-IsFree md5_hex) in
        (write_row bolt false id (n + 1) b, done, held, ok_b', write_row-IsCounted)

  -- The bucket after some stores under ascending rows.
  pub record IsLedger (b : Bucket) (n : ℕ) : Type 0 where
    pub consistent : IsConsistent bolt b
    pub counted : IsCounted b n

  module _ (md5_hex : Text → Text) where
    -- `StoreID` for each identifier of a list, from left to right.
    pub store_each : List Text → Bucket → Outcome Bucket
    store_each [] b = ok b
    store_each (id ∷ ids) b = do (_, b') ← store_id bolt md5_hex false id b; store_each ids b'

    -- One store: the identifier is stored, and the counter moves by one at most.
    pub record IsStep (id : Text) (b : Bucket) (n : ℕ) (b' : Bucket) (n' : ℕ) (row : ℕ)
        : Type 0 where
      pub result : store_id bolt md5_hex false id b ≡ ok (row, b')
      pub held : IsStored bolt b' id row
      pub ledger : IsLedger b' n'
      pub low : n ≤ n'
      pub high : n' ≤ n + 1
      pub keeps :
          (j : Text) (s : ℕ) → is_plain j ≡ true → IsStored bolt b j s → IsStored bolt b' j s

    store-IsStep :
        (id : Text) (b : Bucket) (n : ℕ)
        → is_plain id ≡ true
        → n + 1 < two_64
        → IsLedger b n
        → (b' : Bucket) × (n' : ℕ) × (row : ℕ) × IsStep id b n b' n' row
    store-IsStep id b n plain room l = elim (Option-cases (get b id)) [
      | inl (bytes, found) ↦
          let (r, word, e, back) = l.consistent.leads_back id bytes plain found in
          let held : IsStored bolt b id r = record {
            word = word;
            forward = found ∙ ap some e;
            backward = back;
          } in
          (
            b,
            n,
            r,
            record {
              result = store_id_old bolt md5_hex false id b r held;
              held = held;
              ledger = l;
              low = omega arith;
              high = omega arith;
              keeps = λ j s _ h. h;
            },
          )
      | inr missing ↦
          let (b', done, held, ok_b', count') =
            store_id_counted id b n plain l.counted room md5_hex l.consistent missing in
          (
            b',
            n + 1,
            n + 1,
            record {
              result = done;
              held = held;
              ledger = record { consistent = ok_b'; counted = count' };
              low = omega arith;
              high = omega arith;
              keeps =
                  store_id_keeps bolt md5_hex false id b (n + 1) b' plain l.consistent done
                    (counted-IsFree id b n plain l.counted room md5_hex);
            },
          )
    ]

    abbrev pub AllStored : Bucket → List Text → Type 0
    AllStored b [] = Unit
    AllStored b (id ∷ ids) = ((row : ℕ) × IsStored bolt b id row) × AllStored b ids

    -- What a run of stores leaves: every identifier of the list has a row, and so has what had one.
    pub record IsRun (ids : List Text) (b : Bucket) (n : ℕ) (b' : Bucket) (n' : ℕ) : Type 0 where
      pub result : store_each ids b ≡ ok b'
      pub ledger : IsLedger b' n'
      pub bounded : n' ≤ n + length ids
      pub keeps :
          (j : Text) (s : ℕ) → is_plain j ≡ true → IsStored bolt b j s → IsStored bolt b' j s
      pub stored : AllStored b' ids

    -- Any list of plain identifiers is stored without an error, repeated ones too, while the
    -- counter has room: every one of them then has a row that leads back to it, rows given out
    -- before are unchanged, the bucket is well formed, and at most one row a store is used up.
    pub store_each-IsRun :
        (ids : List Text) (b : Bucket) (n : ℕ)
        → every is_plain ids ≡ true
        → n + length ids < two_64
        → IsLedger b n
        → (b' : Bucket) × (n' : ℕ) × IsRun ids b n b' n'
    unfolding store_each
    store_each-IsRun [] b n plain room l = (
      b,
      n,
      record {
        result = refl;
        ledger = l;
        bounded = omega arith;
        keeps = λ j s _ h. h;
        stored = tt;
      },
    )
    store_each-IsRun (id ∷ ids) b n plain room l =
        let plain_id : is_plain id ≡ true = ground arith in
        let plain_ids : every is_plain ids ≡ true = ground arith in
        let (b1, n1, row, one) = store-IsStep id b n plain_id (omega arith) l in
        let high : n1 ≤ n + 1 = one.high in
        let (b2, n2, rest) = store_each-IsRun ids b1 n1 plain_ids (omega arith) one.ledger in
        let more : n2 ≤ n1 + length ids = rest.bounded in
        (
          b2,
          n2,
          record {
            result = rw one.result rest.result;
            ledger = rest.ledger;
            bounded = omega arith;
            keeps = λ j s plain_j h. rest.keeps j s plain_j (one.keeps j s plain_j h);
            stored = ((row, rest.keeps id row plain_id one.held), rest.stored);
          },
        )
