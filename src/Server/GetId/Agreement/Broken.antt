-- ===== src/Server/GetId/Agreement/Broken.antt =====
-- Requests on which client and server do not fit together.
use gensokyo_discord.Prelude.{
  ℕ, true, false, Option, [], ◌∷◌, Text, codes, ◌≡◌, refl, ap, ◌∙◌, Outcome, ok, err, panicked,
  ◌==◌, bad_response,
}
use gensokyo_discord.Strconv.{IsWord, parse_int, format_int}
use gensokyo_discord.Strconv.RoundTrip.{parse_int-format_int}
use gensokyo_discord.Config.{Settings, get_lotus_value}
use gensokyo_discord.Http.{Fetch, get_json, text_field}
use gensokyo_discord.Bolt.{Bolt}
use gensokyo_discord.Idmap.Ids
use gensokyo_discord.Idmap.Pairs
use gensokyo_discord.Idmap.Remote.{
  retrieve_real_value_v2, retrieve_virtual_value_v2_pro, retrieve_row_by_id_v2_pro,
}
use gensokyo_discord.Idmap.Remote.Url.{getid_url}
use gensokyo_discord.Server.GetId.{get_id_handler}
use gensokyo_discord.Server.GetId.Answer.{Db, Reply, replied, answer, str}
use gensokyo_discord.Server.GetId.Agreement.{Wire, reached, relayed}
use gensokyo_discord.Server.GetId.Single
use gensokyo_discord.Server.GetId.Pair

module _ (bolt : Bolt) (w : Wire) (md5_hex : Text → Text) (server client : Option Settings)
    (fetch_s fetch_c : Fetch) (serving : get_lotus_value server ≡ false)
    (asking : get_lotus_value client ≡ true) (query : Text → Text) (db : Db bolt)
    (local : Bolt.Bucket bolt) where
  abbrev pub served : Outcome (Reply × Db bolt)
  served = get_id_handler bolt server fetch_s md5_hex query db

  module _ (row : ℕ) (word : IsWord row) (of_type : query (codes "type") ≡ codes "6")
      (of_value : query (codes "virtualValue") ≡ format_int row)
      (delivered : fetch_c (
          getid_url client
            ((codes "type", codes "6") ∷ (codes "virtualValue", format_int row) ∷ []))
        ≡ reached w served) where
    handled_real :
        served
        ≡ replied bolt (Ids.retrieve_real_value bolt row db.ids) db λ (virtual, real).
          (answer 200 ((codes "virtual", str virtual) ∷ (codes "real", str real) ∷ []), db)
    unfolding get_id_handler Single.retrieve_real retrieve_real_value_v2
    handled_real =
        rw (of_type, get_id_handler, type_six, of_value, parse_int-format_int row word, serving)
      where
        type_six : parse_int (codes "6") ≡ ok 6
        type_six = unfold parse_int in refl

    relay_real :
        (r : Outcome (Text × Text)) {virtual real : Text}
        → r ≡ ok (virtual, real)
        → fetch_c (
            getid_url client
              ((codes "type", codes "6") ∷ (codes "virtualValue", format_int row) ∷ []))
          ≡ reached w (
              replied bolt r db λ (virtual, real).
                (answer 200 ((codes "virtual", str virtual) ∷ (codes "real", str real) ∷ []), db))
        → retrieve_real_value_v2 bolt client fetch_c row local ≡ err bad_response
    unfolding retrieve_real_value_v2 get_json text_field
    relay_real (ok (virtual, real)) found e = rw (asking, retrieve_real_value_v2, e)
    relay_real (err why) found e = cc
    relay_real panicked found e = cc

    -- Type 6 is answered with the keys `virtual` and `real`, and the client looks for `realValue`: for
    -- every row that the serving instance knows, the client reports a bad response.
    pub retrieve_real_value_v2_broken :
        {virtual real : Text}
        → Ids.retrieve_real_value bolt row db.ids ≡ ok (virtual, real)
        → retrieve_real_value_v2 bolt client fetch_c row local ≡ err bad_response
    retrieve_real_value_v2_broken found =
        relay_real _ found (delivered ∙ ap (reached w) handled_real)

  module _ (real sub : Text) (of_type : query (codes "type") ≡ codes "9")
      (of_id : query (codes "id") ≡ real) (of_sub : query (codes "subid") ≡ sub)
      (named : sub == [] ≡ false)
      (delivered : fetch_c (
          getid_url client
            ((codes "type", codes "9") ∷ (codes "id", real) ∷ (codes "subid", sub) ∷ []))
        ≡ reached w served) where
    handled_pair :
        served
        ≡ replied bolt
            (Pairs.retrieve_row_by_id_pro bolt real sub db.ids)
            db
            λ (id, subid). (answer 200 ((codes "id", str id) ∷ (codes "subid", str subid) ∷ []), db)
    unfolding get_id_handler parse_int Pair.retrieve_row retrieve_row_by_id_v2_pro
    handled_pair = rw (of_type, get_id_handler, of_id, of_sub, named, serving)

    relay_pair :
        (r : Outcome (Text × Text))
        → fetch_c (
            getid_url client
              ((codes "type", codes "9") ∷ (codes "id", real) ∷ (codes "subid", sub) ∷ []))
          ≡ reached w (
              replied bolt r db λ (id, subid).
                (answer 200 ((codes "id", str id) ∷ (codes "subid", str subid) ∷ []), db))
        → retrieve_virtual_value_v2_pro bolt client fetch_c real sub local ≡ relayed r
    unfolding retrieve_virtual_value_v2_pro get_json text_field
    relay_pair (ok (id, subid)) e = rw (asking, retrieve_virtual_value_v2_pro, e)
    relay_pair (err why) e = rw (asking, retrieve_virtual_value_v2_pro, e)
    relay_pair panicked e = rw (asking, retrieve_virtual_value_v2_pro, e)

    -- The client's search for the virtual values of a real pair sends type 9, not 10: what comes back
    -- is what the serving instance's `RetrieveRowByIDPro` finds for the real values taken as rows.
    pub retrieve_virtual_value_v2_pro_inverted :
        retrieve_virtual_value_v2_pro bolt client fetch_c real sub local
        ≡ relayed (Pairs.retrieve_row_by_id_pro bolt real sub db.ids)
    retrieve_virtual_value_v2_pro_inverted = relay_pair _ (delivered ∙ ap (reached w) handled_pair)
