-- ===== src/Server/GetId/Pair.antt =====
-- The types 8 to 12 of `GetIDHandler`: pairs.
use gensokyo_discord.Prelude.{◌||◌, Option, [], ◌∷◌, Text, codes, ◌==◌, Outcome, ok, if◌then◌else◌}
use gensokyo_discord.Config.{Settings}
use gensokyo_discord.Http.{Fetch}
use gensokyo_discord.Bolt.{Bolt}
use gensokyo_discord.Idmap.Remote
use gensokyo_discord.Server.GetId.Answer.{
  Db, Reply, answer, bad_request, int, str, replied, with_int,
}

module _ (bolt : Bolt) (s : Option Settings) (fetch : Fetch) where
  unfoldable pub store : (Text → Text) → (Text → Text) → Db bolt → Outcome (Reply × Db bolt)
  store md5_hex query db =
      let subid = query (codes "subid") in
      if subid == []
      then ok (bad_request (codes "subid parameter is required for type 8"), db)
      else (replied bolt
          (Remote.store_id_v2_pro bolt s fetch md5_hex (query (codes "id")) subid db.ids) db
          λ (rows, b). (
            answer 200 ((codes "row", int rows.0) ∷ (codes "subRow", int rows.1) ∷ []),
            record db { ids = b },
          ))

  unfoldable pub retrieve_row : (Text → Text) → Db bolt → Outcome (Reply × Db bolt)
  retrieve_row query db =
      let subid = query (codes "subid") in
      if subid == []
      then ok (bad_request (codes "subid parameter is required for type 9"), db)
      else (replied bolt
          (Remote.retrieve_row_by_id_v2_pro bolt s fetch (query (codes "id")) subid db.ids) db
          λ (id, sub). (answer 200 ((codes "id", str id) ∷ (codes "subid", str sub) ∷ []), db))

  unfoldable pub retrieve_virtual : (Text → Text) → Db bolt → Outcome (Reply × Db bolt)
  retrieve_virtual query db =
      let id = query (codes "id") in
      let subid = query (codes "subid") in
      if id == [] || subid == []
      then ok (bad_request (codes "id and subid parameters are required for type 10"), db)
      else (replied bolt (Remote.retrieve_virtual_value_v2_pro bolt s fetch id subid db.ids) db
          λ (first, second). (
            answer 200 ((codes "firstValue", str first) ∷ (codes "secondValue", str second) ∷ []),
            db,
          ))

  unfoldable pub retrieve_real : (Text → Text) → Db bolt → Outcome (Reply × Db bolt)
  retrieve_real query db =
      let id = query (codes "id") in
      let subid = query (codes "subid") in
      if id == [] || subid == []
      then ok (bad_request (codes "id and subid parameters are required for type 11"), db)
      else (with_int bolt id (codes "Invalid input values idOrRow") db λ row.
          with_int bolt subid (codes "Invalid input values subid") db λ subrow.
            replied bolt (Remote.retrieve_real_values_v2_pro bolt s fetch row subrow db.ids) db
              λ (first, second). (
                answer 200 (
                    (codes "firstRealValue", str first)
                    ∷ (codes "secondRealValue", str second)
                    ∷ []),
                db,
              ))

  unfoldable pub update : (Text → Text) → Db bolt → Outcome (Reply × Db bolt)
  update query db =
      with_int bolt (query (codes "oldVirtualValue1"))
        (codes "Invalid input values oldVirtualValue1") db
        λ old1.
          with_int bolt (query (codes "newVirtualValue1"))
            (codes "Invalid input values newVirtualValue1") db
            λ new1.
              with_int bolt (query (codes "oldVirtualValue2"))
                (codes "Invalid input values oldVirtualValue2") db
                λ old2.
                  with_int bolt (query (codes "newVirtualValue2"))
                    (codes "Invalid input values newVirtualValue2") db
                    λ new2.
                      replied bolt
                        (Remote.update_virtual_value_v2_pro bolt s fetch old1 new1 old2 new2 db.ids)
                        db
                        λ b. (
                          answer 200 (
                              (codes "message", str (codes "Virtual values updated successfully"))
                              ∷ []),
                          record db { ids = b },
                        )
