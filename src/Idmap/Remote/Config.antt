-- ===== src/Idmap/Remote/Config.antt =====
-- `WriteConfigv2` and `ReadConfigv2` of idmap/service.go.
use gensokyo_discord.Prelude.{
  Option, none, some, [], ◌∷◌, ◌++◌, Text, codes, Outcome, ok, err, ◌>>=◌, ◌>>◌, no_value,
  if◌then◌else◌,
}
use gensokyo_discord.Config.{Settings, get_lotus_value}
use gensokyo_discord.Http.{Fetch, get_ok_json, get_status, field, show_json, encode_values}
use gensokyo_discord.Bolt.{Bolt}
use gensokyo_discord.Idmap.Sections
use gensokyo_discord.Idmap.Remote.Url.{server_url}

module _ (bolt : Bolt) (s : Option Settings) (fetch : Fetch) where
  open bolt use {Bucket}

  -- The parameters are escaped, unlike those of the other requests.
  unfoldable pub write_config_v2 : Text → Text → Text → Option Bucket → Outcome (Option Bucket)
  unfolding encode_values
  write_config_v2 section name value db =
      if get_lotus_value s
      then (do
        get_status fetch (
            server_url s (codes "/getid")
            ++ (b'?'
                ∷ encode_values (
                    (codes "id", section)
                    ∷ (codes "subtype", name)
                    ∷ (codes "type", codes "3")
                    ∷ (codes "value", value)
                    ∷ [])))
        ok db)
      else Sections.write_config bolt section name value db

  unfoldable pub read_config_v2 : Text → Text → Option Bucket → Outcome Text
  unfolding encode_values field
  read_config_v2 section name db =
      if get_lotus_value s
      then (do
        reply ← get_ok_json fetch (
            server_url s (codes "/getid")
            ++ (b'?'
                ∷ encode_values (
                    (codes "id", section)
                    ∷ (codes "subtype", name)
                    ∷ (codes "type", codes "4")
                    ∷ [])))
        elim (field (codes "value") reply) [ none ↦ err no_value | some v ↦ ok (show_json v) ])
      else Sections.read_config bolt section name db
