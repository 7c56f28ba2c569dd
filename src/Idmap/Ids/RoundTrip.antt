-- ===== src/Idmap/Ids/RoundTrip.antt =====
-- Storing identifiers by their hash, and reading them back.
use gensokyo_discord.Prelude.{
  ℕ, true, some, ◌≡◌, ◌≢◌, Text, ap, sym, ◌∙◌, ok, some_or, key_not_found,
}
use mathlib.Core.Path.{subst}
use gensokyo_discord.Strconv.{format_int}
use gensokyo_discord.Strconv.Bytes.{read_row-row_bytes}
use gensokyo_discord.Bolt.{Bolt}
use gensokyo_discord.Idmap.Keys.{is_plain}
use gensokyo_discord.Idmap.Ids.{
  store_id, retrieve_row_by_id, retrieve_real_value, retrieve_virtual_value,
}
use gensokyo_discord.Idmap.Ids.Consistent.{IsConsistent}
use gensokyo_discord.Idmap.Ids.Store.{
  IsStored, hashed_row-IsFree, store_id_old, store_id_lem, store_id_keeps,
}

module _ (bolt : Bolt) where
  open bolt use {Bucket, get}

  -- The three readers find an identifier and its row through each other.
  pub record IsReadable (b : Bucket) (id : Text) (row : ℕ) : Type 0 where
    pub by_row : retrieve_row_by_id bolt (format_int row) b ≡ ok id
    pub real : retrieve_real_value bolt row b ≡ ok (format_int row, id)
    pub virtual : retrieve_virtual_value bolt id b ≡ ok (id, format_int row)

  pub stored-IsReadable :
      (b : Bucket) (id : Text) (row : ℕ) → IsStored bolt b id row → IsReadable b id row
  unfolding retrieve_row_by_id retrieve_real_value retrieve_virtual_value
  stored-IsReadable b id row held = record {
    by_row = ap (λ o. some_or o key_not_found) held.backward;
    real = rw held.backward;
    virtual = rw (held.forward, retrieve_virtual_value, read_row-row_bytes row held.word);
  }

  module _ (md5_hex : Text → Text) where
    -- With hashed rows, a store that returns leaves a well-formed bucket in which the row leads to
    -- the identifier, the identifier to the row, and a second store changes nothing.
    pub store_id-IsReadable :
        (id : Text) (b : Bucket) (row : ℕ) (b' : Bucket)
        → is_plain id ≡ true
        → IsConsistent bolt b
        → store_id bolt md5_hex true id b ≡ ok (row, b')
        → IsConsistent bolt b'
          × IsReadable b' id row
          × (store_id bolt md5_hex true id b' ≡ ok (row, b'))
    store_id-IsReadable id b row b' plain ok_b done =
        let (held, ok_b') =
          store_id_lem bolt md5_hex true id b row b' plain ok_b done
            (hashed_row-IsFree bolt md5_hex id b) in
        (ok_b', stored-IsReadable b' id row held, store_id_old bolt md5_hex true id b' row held)

    -- With hashed rows, two identifiers that are stored one after the other never share a row,
    -- and the first is still found under its row.
    pub store_id-injective :
        (id other : Text) (b : Bucket) (row : ℕ) (b' : Bucket) (row' : ℕ) (b'' : Bucket)
        → is_plain id ≡ true
        → is_plain other ≡ true
        → id ≢ other
        → IsConsistent bolt b
        → store_id bolt md5_hex true id b ≡ ok (row, b')
        → store_id bolt md5_hex true other b' ≡ ok (row', b'')
        → (row ≢ row') × IsReadable b'' id row
    store_id-injective id other b row b' row' b'' plain plain' distinct ok_b first second =
        let free = hashed_row-IsFree bolt md5_hex in
        let (held, ok_b') =
          store_id_lem bolt md5_hex true id b row b' plain ok_b first (free id b) in
        let (held', ok_b'') =
          store_id_lem bolt md5_hex true other b' row' b'' plain' ok_b' second (free other b') in
        let kept =
          store_id_keeps bolt md5_hex true other b' row' b'' plain' ok_b' second (free other b') id
            row plain held in
        (
          λ same.
              distinct (one_owner b'' id other row' (subst (IsStored bolt b'' id) same kept) held'),
          stored-IsReadable b'' id row kept,
        )
      where
        one_owner :
            (c : Bucket) (i j : Text) (r : ℕ) → IsStored bolt c i r → IsStored bolt c j r → i ≡ j
        one_owner c i j r hi hj = let both : some i ≡ some j = sym hi.backward ∙ hj.backward in cc
