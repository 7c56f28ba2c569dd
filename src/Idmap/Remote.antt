-- ===== src/Idmap/Remote.antt =====
-- The functions of idmap/service.go whose names end in v2 and v2Pro: with the setting `lotus` they ask
-- another instance's `/getid`, otherwise they work on the local database.
pub mod Url
pub mod Config
use gensokyo_discord.Prelude.{
  ℕ, Bool, true, false, Option, none, some, List, [], ◌∷◌, ◌++◌, Text, codes, Outcome, ok, err,
  ◌>>=◌, ◌>>◌, if◌then◌else◌,
}
use gensokyo_discord.Strconv.{format_int}
use gensokyo_discord.Config.{Settings, get_lotus_value, get_hash_id_value}
use gensokyo_discord.Http.{Fetch, get_json, get_status, int_field, text_field}
use gensokyo_discord.Bolt.{Bolt}
use Url.{getid_url, query_url}
use gensokyo_discord.Idmap.Ids
use gensokyo_discord.Idmap.Pairs

module _ (bolt : Bolt) (s : Option Settings) (fetch : Fetch) where
  open bolt use {Bucket}

  unfoldable pub store_id_v2 : (Text → Text) → Text → Bucket → Outcome (ℕ × Bucket)
  store_id_v2 md5_hex id b =
      if get_lotus_value s
      then (do
        reply ← get_json fetch (getid_url s ((codes "type", codes "1") ∷ (codes "id", id) ∷ []))
        row ← int_field (codes "row") reply
        ok (row, b))
      else Ids.store_id bolt md5_hex (get_hash_id_value s) id b

  unfoldable pub simplified_store_id_v2 : (Text → Text) → Text → Bucket → Outcome (ℕ × Bucket)
  simplified_store_id_v2 md5_hex id b =
      if get_lotus_value s
      then (do
        reply ← get_json fetch (getid_url s ((codes "type", codes "13") ∷ (codes "id", id) ∷ []))
        row ← int_field (codes "row") reply
        ok (row, b))
      else Ids.simplified_store_id bolt md5_hex id b

  unfoldable pub store_id_v2_pro : (Text → Text) → Text → Text → Bucket → Outcome ((ℕ × ℕ) × Bucket)
  store_id_v2_pro md5_hex id subid b =
      if get_lotus_value s
      then (do
        reply ← get_json fetch (
            getid_url s
              ((codes "type", codes "8") ∷ (codes "id", id) ∷ (codes "subid", subid) ∷ []))
        row ← int_field (codes "row") reply
        subrow ← int_field (codes "subRow") reply
        ok ((row, subrow), b))
      else Pairs.store_id_pro bolt md5_hex id subid b

  unfoldable pub retrieve_row_by_id_v2 : Text → Bucket → Outcome Text
  retrieve_row_by_id_v2 rowid b =
      if get_lotus_value s
      then (do
        reply ← get_json fetch (getid_url s ((codes "type", codes "2") ∷ (codes "id", rowid) ∷ []))
        text_field (codes "id") reply)
      else Ids.retrieve_row_by_id bolt rowid b

  unfoldable pub retrieve_row_by_id_v2_pro : Text → Text → Bucket → Outcome (Text × Text)
  retrieve_row_by_id_v2_pro row subrow b =
      if get_lotus_value s
      then (do
        reply ← get_json fetch (
            getid_url s
              ((codes "type", codes "9") ∷ (codes "id", row) ∷ (codes "subid", subrow) ∷ []))
        id ← text_field (codes "id") reply
        subid ← text_field (codes "subid") reply
        ok (id, subid))
      else Pairs.retrieve_row_by_id_pro bolt row subrow b

  unfoldable pub update_virtual_value_v2 : ℕ → ℕ → Bucket → Outcome Bucket
  update_virtual_value_v2 old_row new_row b =
      if get_lotus_value s
      then (do
        get_status fetch (
            getid_url s (
              (codes "type", codes "5")
              ∷ (codes "oldRowValue", format_int old_row)
              ∷ (codes "newRowValue", format_int new_row)
              ∷ []))
        ok b)
      else Ids.update_virtual_value bolt old_row new_row b

  unfoldable pub retrieve_real_value_v2 : ℕ → Bucket → Outcome (Text × Text)
  retrieve_real_value_v2 row b =
      if get_lotus_value s
      then (do
        reply ←
            get_json fetch (
              getid_url s ((codes "type", codes "6") ∷ (codes "virtualValue", format_int row) ∷ []))
        real ← text_field (codes "realValue") reply
        ok (format_int row, real))
      else Ids.retrieve_real_value bolt row b

  unfoldable pub retrieve_virtual_value_v2 : Text → Bucket → Outcome (Text × Text)
  retrieve_virtual_value_v2 real b =
      if get_lotus_value s
      then (do
        reply ← get_json fetch (getid_url s ((codes "type", codes "7") ∷ (codes "id", real) ∷ []))
        virtual ← text_field (codes "virtual") reply
        ok (real, virtual))
      else Ids.retrieve_virtual_value bolt real b

  -- The type is 9, as for `retrieve_row_by_id_v2_pro`.
  unfoldable pub retrieve_virtual_value_v2_pro : Text → Text → Bucket → Outcome (Text × Text)
  retrieve_virtual_value_v2_pro real real_sub b =
      if get_lotus_value s
      then (do
        reply ← get_json fetch (
            getid_url s
              ((codes "type", codes "9") ∷ (codes "id", real) ∷ (codes "subid", real_sub) ∷ []))
        first ← text_field (codes "id") reply
        second ← text_field (codes "subid") reply
        ok (first, second))
      else Pairs.retrieve_virtual_value_pro bolt real real_sub b

  -- The path is not `/getid`.
  unfoldable pub retrieve_real_values_v2_pro : ℕ → ℕ → Bucket → Outcome (Text × Text)
  retrieve_real_values_v2_pro row subrow b =
      if get_lotus_value s
      then (do
        reply ← get_json fetch (
            query_url s (codes "/getrealvalues") (
              (codes "type", codes "11")
              ∷ (codes "id", format_int row)
              ∷ (codes "subid", format_int subrow)
              ∷ []))
        first ← text_field (codes "firstRealValue") reply
        second ← text_field (codes "secondRealValue") reply
        ok (first, second))
      else Pairs.retrieve_real_value_pro bolt row subrow b

  unfoldable pub update_virtual_value_v2_pro : ℕ → ℕ → ℕ → ℕ → Bucket → Outcome Bucket
  update_virtual_value_v2_pro old_row new_row old_sub new_sub b =
      if get_lotus_value s
      then (do
        get_status fetch (
            getid_url s (
              (codes "type", codes "12")
              ∷ (codes "oldVirtualValue1", format_int old_row)
              ∷ (codes "newVirtualValue1", format_int new_row)
              ∷ (codes "oldVirtualValue2", format_int old_sub)
              ∷ (codes "newVirtualValue2", format_int new_sub)
              ∷ []))
        ok b)
      else Pairs.update_virtual_value_pro bolt old_row new_row old_sub new_sub b
