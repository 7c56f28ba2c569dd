-- ===== src/Server/GetId/Single.antt =====
-- The types 1 to 7 and 13 of `GetIDHandler`: single identifiers and settings.
use gensokyo_discord.Prelude.{
  Option, [], ◌∷◌, Text, codes, ◌==◌, Outcome, ok, err, panicked, Error, key_not_found,
  if◌then◌else◌,
}
use gensokyo_discord.Config.{Settings}
use gensokyo_discord.Http.{Fetch}
use gensokyo_discord.Bolt.{Bolt}
use gensokyo_discord.Idmap.Remote
use gensokyo_discord.Idmap.Remote.Config as Remote_config
use gensokyo_discord.Server.GetId.Answer.{
  Db, Reply, answer, bad_request, int, str, message, replied, with_int,
}

module _ (bolt : Bolt) (s : Option Settings) (fetch : Fetch) where
  unfoldable pub store : (Text → Text) → (Text → Text) → Db bolt → Outcome (Reply × Db bolt)
  store md5_hex query db =
      replied bolt (Remote.store_id_v2 bolt s fetch md5_hex (query (codes "id")) db.ids) db
        λ (row, b). (answer 200 ((codes "row", int row) ∷ []), record db { ids = b })

  unfoldable pub simplified_store :
      (Text → Text) → (Text → Text) → Db bolt → Outcome (Reply × Db bolt)
  simplified_store md5_hex query db =
      replied bolt (Remote.simplified_store_id_v2 bolt s fetch md5_hex (query (codes "id")) db.ids)
        db λ (row, b). (answer 200 ((codes "row", int row) ∷ []), record db { ids = b })

  abbrev pub not_found_or_error : Error → Reply
  not_found_or_error key_not_found = answer 404 ((codes "error", str (codes "ID not found")) ∷ [])
  not_found_or_error e = answer 500 ((codes "error", message e) ∷ [])

  abbrev pub row_answer : Outcome Text → Db bolt → Outcome (Reply × Db bolt)
  row_answer (ok id) db = ok (answer 200 ((codes "id", str id) ∷ []), db)
  row_answer (err e) db = ok (not_found_or_error e, db)
  row_answer panicked db = panicked

  unfoldable pub retrieve_row : (Text → Text) → Db bolt → Outcome (Reply × Db bolt)
  retrieve_row query db =
      row_answer (Remote.retrieve_row_by_id_v2 bolt s fetch (query (codes "id")) db.ids) db

  unfoldable pub write_setting : (Text → Text) → Db bolt → Outcome (Reply × Db bolt)
  write_setting query db =
      replied bolt
        (Remote_config.write_config_v2 bolt s fetch (query (codes "id")) (query (codes "subtype"))
          (query (codes "value")) db.settings)
        db
        λ settings. (
          answer 200 ((codes "status", str (codes "success")) ∷ []),
          record db { settings = settings },
        )

  unfoldable pub read_setting : (Text → Text) → Db bolt → Outcome (Reply × Db bolt)
  read_setting query db =
      replied bolt
        (Remote_config.read_config_v2 bolt s fetch (query (codes "id")) (query (codes "subtype"))
          db.settings)
        db λ value. (answer 200 ((codes "value", str value) ∷ []), db)

  unfoldable pub update : (Text → Text) → Db bolt → Outcome (Reply × Db bolt)
  update query db =
      with_int bolt (query (codes "oldRowValue")) (codes "invalid oldRowValue") db λ old_row.
        with_int bolt (query (codes "newRowValue")) (codes "invalid newRowValue") db λ new_row.
          replied bolt (Remote.update_virtual_value_v2 bolt s fetch old_row new_row db.ids) db
            λ b. (answer 200 ((codes "status", str (codes "success")) ∷ []), record db { ids = b })

  unfoldable pub retrieve_real : (Text → Text) → Db bolt → Outcome (Reply × Db bolt)
  retrieve_real query db =
      with_int bolt (query (codes "virtualValue")) (codes "invalid virtualValue") db λ row.
        replied bolt (Remote.retrieve_real_value_v2 bolt s fetch row db.ids) db λ (virtual, real).
          (answer 200 ((codes "virtual", str virtual) ∷ (codes "real", str real) ∷ []), db)

  unfoldable pub retrieve_virtual : (Text → Text) → Db bolt → Outcome (Reply × Db bolt)
  retrieve_virtual query db =
      let id = query (codes "id") in
      if id == []
      then ok (bad_request (codes "invalid id"), db)
      else (replied bolt (Remote.retrieve_virtual_value_v2 bolt s fetch id db.ids) db
          λ (real, virtual). (answer 200 ((codes "virtual", str virtual) ∷ []), db))
