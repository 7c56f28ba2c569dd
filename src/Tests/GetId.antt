-- ===== src/Tests/GetId.antt =====
-- Requests of a client instance to a serving one, on a concrete database.
use gensokyo_discord.Prelude.{
  true, none, some, List, [], ◌∷◌, ◌++◌, ◌≡◌, refl, Text, ◌==◌, codes, Outcome, ok, err, panicked,
  bad_response, if◌then◌else◌, arith, sym,
}
use gensokyo_discord.Strconv.{format_int, parse_int, read_row, row_bytes}
use gensokyo_discord.Tests.Sample.{plain_settings}
use gensokyo_discord.Config.{Settings, get_hash_id_value}
use gensokyo_discord.Http.{Fetch}
use gensokyo_discord.Bolt.{Bolt}
use gensokyo_discord.Bolt.Sorted.{sorted_bolt, SortedBucket, sorted_run}
use gensokyo_discord.Bolt.Writes.{put_silently}
use gensokyo_discord.Idmap.Ids
use gensokyo_discord.Idmap.Ids.{
  store_id, retrieve_row_by_id, retrieve_virtual_value, retrieve_real_value,
}
use gensokyo_discord.Idmap.Pairs
use gensokyo_discord.Idmap.RowId.{generate_row_id}
use gensokyo_discord.Idmap.Remote.{
  store_id_v2, retrieve_row_by_id_v2, retrieve_real_value_v2, retrieve_virtual_value_v2_pro,
}
use gensokyo_discord.Server.GetId.{get_id_handler}
use gensokyo_discord.Server.GetId.Answer.{Db}
use gensokyo_discord.Server.GetId.Agreement.{Wire, reached, relayed}
use gensokyo_discord.Server.GetId.Agreement.Single.{
  row_of, store_id_v2-relayed, retrieve_row_by_id_v2-relayed,
}
use gensokyo_discord.Server.GetId.Agreement.Broken.{
  retrieve_real_value_v2_broken, retrieve_virtual_value_v2_pro_inverted,
}

abbrev sample_hash : Text → Text
sample_hash id = id ++ codes "a0123456789"

abbrev ann : Text
ann = codes "11"

abbrev row_text : Text
row_text = codes "110123456"

abbrev bucket_of {ℓ} : {A : Type ℓ} → Outcome (A × SortedBucket) → SortedBucket
bucket_of (ok (_, b)) = b
bucket_of (err e) = Bolt.empty sorted_bolt
bucket_of panicked = Bolt.empty sorted_bolt

abbrev with_ann : SortedBucket
with_ann = bucket_of (store_id sorted_bolt sample_hash true ann (Bolt.empty sorted_bolt))

abbrev serving : Settings
serving = plain_settings

abbrev asking : Settings
asking = record serving { lotus = true }

abbrev unplugged : Fetch
unplugged url = none

-- Numbers of up to 2^53 arrive as they are.
abbrev wire : Wire
wire = record { round = λ n. n; shown = format_int; error_text = λ e. [] }

abbrev db : Db sorted_bolt
db = record { ids = with_ann; settings = none }

-- A request with these parameters.
abbrev param : List (Text × Text) → Text → Text
param [] key = []
param ((k, v) ∷ rest) key = if k == key then v else param rest key

abbrev answered : (Text → Text) → Fetch
answered query url =
    reached wire (get_id_handler sorted_bolt (some serving) unplugged sample_hash query db)

get_id_run : Unit {0}
unfolding sorted_run store_id put_silently read_row format_int row_bytes parse_int generate_row_id
    retrieve_row_by_id retrieve_virtual_value
get_id_run = tt

abbrev store_query : Text → Text
store_query = param ((codes "type", codes "1") ∷ (codes "id", ann) ∷ [])

-- The client is given the row that the serving instance has.
store_id_v2-relayed_example :
    row_of (
      store_id_v2 sorted_bolt
        (some asking)
        (answered store_query)
        sample_hash
        ann
        (Bolt.empty sorted_bolt))
    ≡ relayed (
        row_of
          (Ids.store_id sorted_bolt sample_hash (get_hash_id_value (some serving)) ann with_ann))
store_id_v2-relayed_example =
    store_id_v2-relayed sorted_bolt wire sample_hash (some serving) (some asking) unplugged
      (answered store_query) refl refl store_query db ann refl (Bolt.empty sorted_bolt) refl refl
      (λ row e. refl)

abbrev row_query : Text → Text
row_query = param ((codes "type", codes "2") ∷ (codes "id", row_text) ∷ [])

retrieve_row_by_id_v2-relayed_example :
    retrieve_row_by_id_v2 sorted_bolt
      (some asking)
      (answered row_query)
      row_text
      (Bolt.empty sorted_bolt)
    ≡ relayed (Ids.retrieve_row_by_id sorted_bolt row_text with_ann)
retrieve_row_by_id_v2-relayed_example =
    retrieve_row_by_id_v2-relayed sorted_bolt wire sample_hash (some serving) (some asking)
      unplugged (answered row_query) refl refl row_query db row_text refl (Bolt.empty sorted_bolt)
      refl refl

abbrev real_query : Text → Text
real_query = param ((codes "type", codes "6") ∷ (codes "virtualValue", row_text) ∷ [])

row_shown : format_int 110123456 ≡ row_text
unfolding get_id_run
row_shown = refl

real_held : Ids.retrieve_real_value sorted_bolt 110123456 with_ann ≡ ok (row_text, ann)
unfolding get_id_run retrieve_real_value
real_held = refl

retrieve_real_value_v2_broken_example :
    retrieve_real_value_v2 sorted_bolt
      (some asking)
      (answered real_query)
      110123456
      (Bolt.empty sorted_bolt)
    ≡ err bad_response
retrieve_real_value_v2_broken_example =
    retrieve_real_value_v2_broken sorted_bolt wire sample_hash (some serving) (some asking)
      unplugged (answered real_query) refl refl real_query db (Bolt.empty sorted_bolt) 110123456
      (omega arith) refl (sym row_shown) refl real_held

abbrev pair_query : Text → Text
pair_query = param ((codes "type", codes "9") ∷ (codes "id", ann) ∷ (codes "subid", ann) ∷ [])

retrieve_virtual_value_v2_pro_inverted_example :
    retrieve_virtual_value_v2_pro sorted_bolt
      (some asking)
      (answered pair_query)
      ann
      ann
      (Bolt.empty sorted_bolt)
    ≡ relayed (Pairs.retrieve_row_by_id_pro sorted_bolt ann ann with_ann)
retrieve_virtual_value_v2_pro_inverted_example =
    retrieve_virtual_value_v2_pro_inverted sorted_bolt wire sample_hash (some serving) (some asking)
      unplugged (answered pair_query) refl refl pair_query db (Bolt.empty sorted_bolt) ann ann refl
      refl refl refl refl
