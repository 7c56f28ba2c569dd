-- ===== src/Handlers/Revert.antt =====
-- `RevertTransformedText` of handlers/message_parser.go, which turns the text of a Discord message into
-- that of a OneBot event, and `SendMessage` there, by which a refused message is answered.
pub mod Mentions
pub mod Filters
pub mod Blocked
use gensokyo_discord.Prelude.{
  ℕ, ◌+◌, ◌%◌, Bool, true, false, not, ◌&&◌, Option, none, some, List, [], ◌∷◌, ◌++◌, Text, ◌==◌,
  codes, Outcome, ok, err, panicked, ◌>>=◌, if◌then◌else◌,
}
use gensokyo_discord.Strconv.{two_64}
use gensokyo_discord.Config.{
  Settings, get_remove_at, get_remove_prefix_value, get_no_white_response,
}
use gensokyo_discord.Http.{Fetch}
use gensokyo_discord.Bolt.{Bolt}
use gensokyo_discord.Echo.{get_mapping_seq, add_mapping_seq}
use gensokyo_discord.Handlers.Types.{World, Sent, to_channel, to_user, words_only}
use Mentions.{replace_all, trim_space, revert_mentions}
use Filters.{Attachment, remove_slash, is_unlisted, is_black, without_visual, with_images}

-- What the program reads of a `discordgo.MessageCreate`. `is_guild` is the type of message, guild or
-- guild_private, under which it is processed.
pub record Incoming : Type 0 where
  pub id : Text
  pub channel_id : Text
  pub guild_id : Text
  pub author_id : Text
  pub username : Text
  pub nick : Text
  pub avatar : Text
  pub content : Text
  pub attachments : List Attachment
  pub timestamp : ℕ
  pub is_guild : Bool

module _ (bolt : Bolt) (s : Option Settings) (fetch : Fetch) (md5_hex : Text → Text)
    (opens : Text → Bool) (delivers : Sent → Bool) where
  -- `GenerateReplyMessage` leaves a text without items as it is; an error is dropped by the only caller.
  unfoldable pub send_message : Text → Incoming → World bolt → World bolt
  unfolding get_mapping_seq add_mapping_seq
  send_message text m w =
      let counted : World bolt = record w {
        sequences =
            add_mapping_seq m.id ((get_mapping_seq w.sequences m.id + 1) % two_64) w.sequences;
      } in
      let sent =
        if m.is_guild
        then to_channel m.channel_id (words_only text)
        else to_user m.author_id (words_only text) in
      if (if m.is_guild then true else opens m.author_id) && delivers sent
      then record counted { outbox = counted.outbox ++ (sent ∷ []) }
      else counted

  -- The text before the filters: `bot` and `app` are the global variables BotID and AppID.
  unfoldable pub plain_text : (bot app : Text) → Incoming → World bolt → Outcome (Text × World bolt)
  unfolding revert_mentions trim_space replace_all remove_slash
  plain_text bot app m w =
      let blank = m.content == codes " " in
      let start = if blank then codes " " else trim_space m.content in
      revert_mentions bolt s fetch md5_hex app 0 (replace_all bot app start) w >>= λ (text, w').
      let trimmed = if get_remove_at s && not blank then trim_space text else text in
      ok ((if get_remove_prefix_value s then remove_slash trimmed else trimmed), w')

  -- The filters and the pictures. `commands` are the one-time commands, which the white list admits.
  unfoldable pub filtered : List Text → ℕ → Incoming → Text → World bolt → Text × World bolt
  unfolding is_unlisted is_black without_visual with_images send_message
  filtered commands vgid m text w =
      let unlisted = is_unlisted s commands vgid text in
      let w' = if unlisted then send_message (get_no_white_response s) m w else w in
      let admitted = if unlisted then [] else text in
      let kept = if is_black s admitted then [] else admitted in
      (with_images m.attachments (without_visual s kept), w')

  unfoldable pub revert_transformed_text :
      (bot app : Text) → List Text → ℕ → Incoming → World bolt → Outcome (Text × World bolt)
  unfolding plain_text filtered
  revert_transformed_text bot app commands vgid m w =
      plain_text bot app m w >>= λ (text, w'). ok (filtered commands vgid m text w')
