-- ===== src/Server/GetId/Agreement/Single.antt =====
-- Requests on which client and server agree.
use gensokyo_discord.Prelude.{
  ℕ, true, false, Option, [], ◌∷◌, Text, codes, ◌≡◌, refl, ap, ◌∙◌, Outcome, ok, err, panicked,
  ◌==◌, key_not_found,
}
use gensokyo_discord.Strconv.{parse_int}
use gensokyo_discord.Config.{Settings, get_lotus_value, get_hash_id_value}
use gensokyo_discord.Http.{Fetch, get_json, int_field, text_field}
use gensokyo_discord.Bolt.{Bolt}
use gensokyo_discord.Idmap.Ids
use gensokyo_discord.Idmap.Remote.{store_id_v2, retrieve_row_by_id_v2, retrieve_virtual_value_v2}
use gensokyo_discord.Idmap.Remote.Url.{getid_url}
use gensokyo_discord.Server.GetId.{get_id_handler}
use gensokyo_discord.Server.GetId.Answer.{Db, Reply, replied, answer, int, str}
use gensokyo_discord.Server.GetId.Agreement.{Wire, reached, relayed}
use gensokyo_discord.Server.GetId.Single

-- The row of a store, without the bucket.
abbrev pub row_of {ℓ} : {A : Type ℓ} → Outcome (ℕ × A) → Outcome ℕ
row_of (ok (row, b)) = ok row
row_of (err e) = err e
row_of panicked = panicked

-- The virtual value, without the real one.
abbrev pub second_of : Outcome (Text × Text) → Outcome Text
second_of (ok (real, virtual)) = ok virtual
second_of (err e) = err e
second_of panicked = panicked

module _ (bolt : Bolt) (w : Wire) (md5_hex : Text → Text) (server client : Option Settings)
    (fetch_s fetch_c : Fetch) (serving : get_lotus_value server ≡ false)
    (asking : get_lotus_value client ≡ true) (query : Text → Text) (db : Db bolt) where
  -- The serving instance's answer to the query.
  abbrev pub served : Outcome (Reply × Db bolt)
  served = get_id_handler bolt server fetch_s md5_hex query db

  module _ (id : Text) (of_id : query (codes "id") ≡ id) (local : Bolt.Bucket bolt) where
    module _ (of_type : query (codes "type") ≡ codes "1")
        (delivered : fetch_c (getid_url client ((codes "type", codes "1") ∷ (codes "id", id) ∷ []))
          ≡ reached w served) where
      handled_store :
          served
          ≡ replied bolt
              (Ids.store_id bolt md5_hex (get_hash_id_value server) id db.ids)
              db
              λ (row, b). (answer 200 ((codes "row", int row) ∷ []), record db { ids = b })
      unfolding get_id_handler parse_int Single.store store_id_v2
      handled_store = rw (of_type, get_id_handler, of_id, serving)

      relay_row :
          (r : Outcome (ℕ × Bolt.Bucket bolt))
          → ((row : ℕ) → row_of r ≡ ok row → w.round row ≡ row)
          → fetch_c (getid_url client ((codes "type", codes "1") ∷ (codes "id", id) ∷ []))
            ≡ reached w (
                replied bolt r db
                  λ (row, b). (answer 200 ((codes "row", int row) ∷ []), record db { ids = b }))
          → row_of (store_id_v2 bolt client fetch_c md5_hex id local) ≡ relayed (row_of r)
      unfolding store_id_v2 get_json int_field
      relay_row (ok (row, b)) exact e = rw (asking, store_id_v2, e, exact row refl)
      relay_row (err why) exact e = rw (asking, store_id_v2, e)
      relay_row panicked exact e = rw (asking, store_id_v2, e)

      -- A client's request of type 1 comes back with the row that the serving instance's `StoreID`
      -- gives; an error there is a server error here, and a panic there is an undecodable reply. The
      -- row must be one that a float64 holds exactly.
      pub store_id_v2-relayed :
          ((row : ℕ)
            → row_of (Ids.store_id bolt md5_hex (get_hash_id_value server) id db.ids) ≡ ok row
            → w.round row ≡ row)
          → row_of (store_id_v2 bolt client fetch_c md5_hex id local)
            ≡ relayed (row_of (Ids.store_id bolt md5_hex (get_hash_id_value server) id db.ids))
      store_id_v2-relayed exact = relay_row _ exact (delivered ∙ ap (reached w) handled_store)

    module _ (of_type : query (codes "type") ≡ codes "2")
        (delivered : fetch_c (getid_url client ((codes "type", codes "2") ∷ (codes "id", id) ∷ []))
          ≡ reached w served) where
      handled_row :
          served ≡ Single.row_answer bolt server fetch_s (Ids.retrieve_row_by_id bolt id db.ids) db
      unfolding get_id_handler parse_int Single.retrieve_row retrieve_row_by_id_v2
      handled_row = rw (of_type, get_id_handler, of_id, serving)

      relay_id :
          (r : Outcome Text)
          → fetch_c (getid_url client ((codes "type", codes "2") ∷ (codes "id", id) ∷ []))
            ≡ reached w (Single.row_answer bolt server fetch_s r db)
          → retrieve_row_by_id_v2 bolt client fetch_c id local ≡ relayed r
      unfolding retrieve_row_by_id_v2 get_json text_field
      relay_id (ok real) e = rw (asking, retrieve_row_by_id_v2, e)
      relay_id (err key_not_found) e = rw (asking, retrieve_row_by_id_v2, e)
      relay_id (err why) e = rw (asking, retrieve_row_by_id_v2, e)
      relay_id panicked e = rw (asking, retrieve_row_by_id_v2, e)

      -- A client's request of type 2 comes back with the identifier that the serving instance's
      -- `RetrieveRowByID` finds; a row that is not found there is a server error here.
      pub retrieve_row_by_id_v2-relayed :
          retrieve_row_by_id_v2 bolt client fetch_c id local
          ≡ relayed (Ids.retrieve_row_by_id bolt id db.ids)
      retrieve_row_by_id_v2-relayed = relay_id _ (delivered ∙ ap (reached w) handled_row)

    module _ (of_type : query (codes "type") ≡ codes "7") (named : id == [] ≡ false)
        (delivered : fetch_c (getid_url client ((codes "type", codes "7") ∷ (codes "id", id) ∷ []))
          ≡ reached w served) where
      handled_virtual :
          served
          ≡ replied bolt
              (Ids.retrieve_virtual_value bolt id db.ids)
              db
              λ (real, virtual). (answer 200 ((codes "virtual", str virtual) ∷ []), db)
      unfolding get_id_handler parse_int Single.retrieve_virtual retrieve_virtual_value_v2
      handled_virtual = rw (of_type, get_id_handler, of_id, named, serving)

      relay_virtual :
          (r : Outcome (Text × Text))
          → fetch_c (getid_url client ((codes "type", codes "7") ∷ (codes "id", id) ∷ []))
            ≡ reached w (
                replied bolt r db
                  λ (real, virtual). (answer 200 ((codes "virtual", str virtual) ∷ []), db))
          → second_of (retrieve_virtual_value_v2 bolt client fetch_c id local)
            ≡ relayed (second_of r)
      unfolding retrieve_virtual_value_v2 get_json text_field
      relay_virtual (ok (real, virtual)) e = rw (asking, retrieve_virtual_value_v2, e)
      relay_virtual (err why) e = rw (asking, retrieve_virtual_value_v2, e)
      relay_virtual panicked e = rw (asking, retrieve_virtual_value_v2, e)

      -- A client's request of type 7 comes back with the virtual value that the serving instance's
      -- `RetrieveVirtualValue` finds.
      retrieve_virtual_value_v2-relayed :
          second_of (retrieve_virtual_value_v2 bolt client fetch_c id local)
          ≡ relayed (second_of (Ids.retrieve_virtual_value bolt id db.ids))
      retrieve_virtual_value_v2-relayed =
          relay_virtual _ (delivered ∙ ap (reached w) handled_virtual)
