-- ===== src/Server/GetId.antt =====
-- `GetIDHandler` of server/getIDHandler.go, the endpoint `/getid` by which one instance serves its
-- identifier database to others.
pub mod Single
pub mod Pair
pub mod Answer
pub mod Agreement
use gensokyo_discord.Prelude.{
  ℕ, Bool, true, false, Option, [], ◌∷◌, Text, codes, Outcome, ok, err, panicked, eqb,
  if◌then◌else◌,
}
use gensokyo_discord.Strconv.{parse_int}
use gensokyo_discord.Config.{Settings}
use gensokyo_discord.Http.{Fetch}
use gensokyo_discord.Bolt.{Bolt}
use Answer.{Db, Reply, answer, str, bad_request}
use Single
use Pair

module _ (bolt : Bolt) (s : Option Settings) (fetch : Fetch) (md5_hex : Text → Text) where
  -- the `switch`; a type that is not listed writes nothing, which gin sends as an empty 200
  unfoldable pub dispatch : ℕ → (Text → Text) → Db bolt → Outcome (Reply × Db bolt)
  unfolding Single.store Single.retrieve_row
  dispatch t query db =
      if eqb t 1
      then Single.store bolt s fetch md5_hex query db
      else if eqb t 2
      then Single.retrieve_row bolt s fetch query db
      else if eqb t 3
      then Single.write_setting bolt s fetch query db
      else if eqb t 4
      then Single.read_setting bolt s fetch query db
      else if eqb t 5
      then Single.update bolt s fetch query db
      else if eqb t 6
      then Single.retrieve_real bolt s fetch query db
      else if eqb t 7
      then Single.retrieve_virtual bolt s fetch query db
      else if eqb t 8
      then Pair.store bolt s fetch md5_hex query db
      else if eqb t 9
      then Pair.retrieve_row bolt s fetch query db
      else if eqb t 10
      then Pair.retrieve_virtual bolt s fetch query db
      else if eqb t 11
      then Pair.retrieve_real bolt s fetch query db
      else if eqb t 12
      then Pair.update bolt s fetch query db
      else if eqb t 13
      then Single.simplified_store bolt s fetch md5_hex query db
      else ok (answer 200 [], db)

  abbrev with_type : Outcome ℕ → (Text → Text) → Db bolt → Outcome (Reply × Db bolt)
  with_type (ok t) query db = dispatch t query db
  with_type (err e) query db = ok (bad_request (codes "invalid type"), db)
  with_type panicked query db = panicked

  -- `query` is gin's c.Query.
  unfoldable pub get_id_handler : (Text → Text) → Db bolt → Outcome (Reply × Db bolt)
  unfolding dispatch
  get_id_handler query db = with_type (parse_int (query (codes "type"))) query db
