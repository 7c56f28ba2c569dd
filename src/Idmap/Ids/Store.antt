-- ===== src/Idmap/Ids/Store.antt =====
-- What `StoreID` does to a well-formed bucket, in both modes.
use gensokyo_discord.Prelude.{
  ℕ, Bool, true, none, some, is_some, ◌≡◌, ◌⊎◌, Text, ◌==◌, eq_iff, eq_refl, if◌then◌else◌,
  Bool-cases, Option-cases, inl, inr, ap, sym, ◌∙◌, Outcome, ok, err, no_unique_row, ok_pair, ◌>>=◌,
  returns_through,
}
use mathlib.Core.Path.{subst}
use gensokyo_discord.Strconv.{IsWord, row_bytes}
use gensokyo_discord.Strconv.Bytes.{read_row-row_bytes}
use gensokyo_discord.Bolt.{Bolt}
use gensokyo_discord.Idmap.Keys.{row_key, is_plain}
use gensokyo_discord.Idmap.RowId.{generate_row_id}
use gensokyo_discord.Idmap.RowId.Bounds.{generate_row_id-IsWord}
use gensokyo_discord.Idmap.Ids.{hashed_row, next_row, write_row, store_new, store_id}
use gensokyo_discord.Idmap.Ids.Consistent.{
  IsConsistent, get-write_row_plain, get-write_row_self, write_row-IsConsistent, old_row_kept,
}

module _ (bolt : Bolt) where
  open bolt use {Bucket, get}

  -- An identifier and its row lead to each other.
  pub record IsStored (b : Bucket) (id : Text) (row : ℕ) : Type 0 where
    pub word : IsWord row
    pub forward : get b id ≡ some (row_bytes row)
    pub backward : get b (row_key row) ≡ some id

  -- A row that nothing leads from yet.
  pub record IsFree (b : Bucket) (row : ℕ) : Type 0 where
    pub word : IsWord row
    pub unused : get b (row_key row) ≡ none

  module _ (md5_hex : Text → Text) where
    -- The row that a new identifier is given.
    abbrev pub chosen_row : Bool → Text → Bucket → Outcome ℕ
    chosen_row hash id b = if hash then hashed_row bolt md5_hex id b else next_row bolt b

    abbrev second_try : Text → Bucket → Outcome ℕ
    second_try id b = do
      longer ← generate_row_id md5_hex id 10
      if is_some (get b (row_key longer)) then err no_unique_row else ok longer

    -- A row that is chosen by the hash is free.
    pub hashed_row-IsFree :
        (id : Text) (b : Bucket) (row : ℕ) → hashed_row bolt md5_hex id b ≡ ok row → IsFree b row
    unfolding hashed_row
    hashed_row-IsFree id b row h =
        let (first, e, rest) = returns_through (generate_row_id md5_hex id 9) _ h in
        elim (Option-cases (get b (row_key first))) [
          | inl (taken, held) ↦
              let more : second_try id b ≡ ok row = rw held at rest in
              let (longer, e', rest') = returns_through (generate_row_id md5_hex id 10) _ more in
              elim (Option-cases (get b (row_key longer))) [
                | inl (also, held') ↦ let bad : err no_unique_row ≡ ok row = rw held' at rest' in cc
                | inr unused ↦
                    let same : ok longer ≡ ok row = rw unused at rest' in
                    let eq : longer ≡ row = cc in
                    subst (IsFree b) eq (record {
                      word = generate_row_id-IsWord md5_hex id 10 longer e';
                      unused = unused;
                    })
              ]
          | inr unused ↦
              let same : ok first ≡ ok row = rw unused at rest in
              let eq : first ≡ row = cc in
              subst (IsFree b) eq
                (record { word = generate_row_id-IsWord md5_hex id 9 first e; unused = unused })
        ]

    -- An identifier that is there keeps its row, and nothing is written.
    pub store_id_old :
        (hash : Bool) (id : Text) (b : Bucket) (row : ℕ)
        → IsStored b id row
        → store_id bolt md5_hex hash id b ≡ ok (row, b)
    unfolding store_id
    store_id_old hash id b row held = rw (held.forward, store_id, read_row-row_bytes row held.word)

    -- A new identifier is written at the chosen row.
    pub store_id_new :
        (hash : Bool) (id : Text) (b : Bucket) (row : ℕ)
        → get b id ≡ none
        → chosen_row hash id b ≡ ok row
        → store_id bolt md5_hex hash id b ≡ ok (row, write_row bolt hash id row b)
    unfolding store_id store_new
    store_id_new hash id b row missing e = rw (missing, store_id, e)

    module _ (hash : Bool) (id : Text) (b : Bucket) (row : ℕ) (b' : Bucket)
        (plain : is_plain id ≡ true) (ok_b : IsConsistent bolt b)
        (done : store_id bolt md5_hex hash id b ≡ ok (row, b')) where
      -- Whatever was stored was there before, or stands at the chosen row.
      pub store_id-cases :
          (IsStored b id row × (b ≡ b'))
          ⊎ ((chosen_row hash id b ≡ ok row)
              × (get b id ≡ none)
              × (write_row bolt hash id row b ≡ b'))
      unfolding store_id store_new
      store_id-cases = elim (Option-cases (get b id)) [
        | inl (bytes, found) ↦
            let (r, word, e, back) = ok_b.leads_back id bytes plain found in
            let held : IsStored b id r = record {
              word = word;
              forward = found ∙ ap some e;
              backward = back;
            } in
            let (same_row, same_bucket) = ok_pair (sym (store_id_old hash id b r held) ∙ done) in
            inl (subst (IsStored b id) same_row held, same_bucket)
        | inr missing ↦
            let rest : store_new bolt md5_hex hash id b ≡ ok (row, b') =
              rw (missing, store_id) at done in
            let (r, e, fin) = returns_through (chosen_row hash id b) _ rest in
            let (same_row, same_bucket) = ok_pair fin in
            inr (rw (← same_row) e, missing, rw (← same_row) same_bucket)
      ]

      old_id_kept :
          (j : Text) (s : ℕ)
          → is_plain j ≡ true
          → get b id ≡ none
          → get b j ≡ some (row_bytes s)
          → get (write_row bolt hash id row b) j ≡ some (row_bytes s)
      old_id_kept j s plain_j missing found = elim (Bool-cases (id == j)) [
        | inl same ↦
            let e : id ≡ j = (eq_iff id j).0 same in
            let clash : none ≡ some (row_bytes s) =
              sym (subst (λ k. get b k ≡ none) e missing) ∙ found in
            cc
        | inr other ↦ rw (get-write_row_plain bolt hash id row b plain j plain_j, other) found
      ]

      module _ (chosen_free : (r : ℕ) → chosen_row hash id b ≡ ok r → IsFree b r) where
        pub store_id_lem : IsStored b' id row × IsConsistent bolt b'
        store_id_lem = elim store_id-cases [
          | inl (held, same) ↦
              (subst (λ c. IsStored c id row) same held, subst (IsConsistent bolt) same ok_b)
          | inr (chosen, missing, same) ↦
              let free = chosen_free row chosen in
              subst (λ c. IsStored c id row × IsConsistent bolt c) same
                (
                  record {
                    word = free.word;
                    forward =
                        rw (get-write_row_plain bolt hash id row b plain id plain, eq_refl id);
                    backward = get-write_row_self bolt hash id row b plain;
                  },
                  write_row-IsConsistent bolt hash id row b plain free.word free.unused ok_b,
                )
        ]

        -- No other identifier's row changes, and no row that is in use leads elsewhere.
        pub store_id_keeps :
            (j : Text) (s : ℕ) → is_plain j ≡ true → IsStored b j s → IsStored b' j s
        store_id_keeps j s plain_j held = elim store_id-cases [
          | inl (_, same) ↦ subst (λ c. IsStored c j s) same held
          | inr (chosen, missing, same) ↦
              let free = chosen_free row chosen in
              subst (λ c. IsStored c j s) same
                (record {
                  word = held.word;
                  forward = old_id_kept j s plain_j missing held.forward;
                  backward = old_row_kept bolt hash id row b plain j s free.unused held.backward;
                })
        ]
