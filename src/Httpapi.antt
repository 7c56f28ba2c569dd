-- ===== src/Httpapi.antt =====
-- httpapi/httpapi.go: the sending actions over HTTP. A request is what gin's binding leaves of it, `none`
-- where it cannot be bound; the client takes every receipt.
use gensokyo_discord.Prelude.{
  ℕ, suc, Bool, true, Option, none, some, ◌≡◌, refl, Text, codes, Outcome, ok, err, panicked, Error,
}
use gensokyo_discord.Strconv.{format_int}
use gensokyo_discord.Config.{Settings}
use gensokyo_discord.Http.{Fetch}
use gensokyo_discord.Bolt.{Bolt}
use gensokyo_discord.Callapi.{Value, ActionMessage}
use gensokyo_discord.Handlers.Types.{World, Sent, Media}
use gensokyo_discord.Handlers.Quick.{action_for}
use gensokyo_discord.Handlers.Send.Direct.{Receipt, handle_send_guild_channel_msg}
use gensokyo_discord.Handlers.Send.Retry.{Result, handle_send_group_msg, handle_send_private_msg}
use gensokyo_discord.Handlers.Send.Unsent.{IsUntyped, group_msg_without_user}

pub data HttpReply : Type 0 where
  bad_request : HttpReply
  failed : Error → HttpReply
  -- the status 200, with the receipt or with an empty body
  done : Receipt → HttpReply
  crashed : HttpReply

-- The three requests, and a path that is left to the next handler.
pub data HttpRequest : Type 0 where
  send_group_msg : Option (ℕ × Text) → HttpRequest
  send_private_msg : Option (ℕ × ℕ × Text) → HttpRequest
  send_guild_channel_msg : Option (Text × Text × Text) → HttpRequest
  unknown_path : HttpRequest

module _ (bolt : Bolt) (s : Option Settings) (fetch : Fetch) (md5_hex : Text → Text)
    (opens : Text → Bool) (delivers : Sent → Bool) (drawn : Text → Text) (media : Media) where
  abbrev reply_of : Outcome Receipt → HttpReply
  reply_of (ok r) = done r
  reply_of (err e) = failed e
  reply_of panicked = crashed

  abbrev replied : Option (Result bolt s) → Option (HttpReply × World bolt)
  replied none = none
  replied (some (r, w)) = some (reply_of r, w)

  unfoldable pub handle_send_group_message :
      ℕ → Option (ℕ × Text) → World bolt → Option (HttpReply × World bolt)
  handle_send_group_message fuel none w = some (bad_request, w)
  handle_send_group_message fuel (some (group, text)) w = replied (
      handle_send_group_msg bolt s fetch md5_hex opens delivers true drawn media fuel
        (action_for (codes "send_group_msg") (some (format_int group)) none text) w)

  unfoldable pub handle_send_private_message :
      ℕ → Option (ℕ × ℕ × Text) → World bolt → Option (HttpReply × World bolt)
  handle_send_private_message fuel none w = some (bad_request, w)
  handle_send_private_message fuel (some (group, user, text)) w = replied (
      handle_send_private_msg bolt s fetch md5_hex opens delivers true drawn media fuel
        (action_for (codes "send_private_msg") (some (format_int group)) (some (format_int user))
          text)
        w)

  unfoldable pub handle_send_guild_channel_message :
      Option (Text × Text × Text) → World bolt → HttpReply × World bolt
  handle_send_guild_channel_message none w = (bad_request, w)
  handle_send_guild_channel_message (some (guild, channel, text)) w =
      let m : ActionMessage = record {
        action = codes "send_guild_channel_msg";
        params = record {
          channel_id = channel;
          guild_id = guild;
          group_id = none;
          user_id = none;
          message = Value.string text;
        };
        echo = none;
      } in
      let result =
        handle_send_guild_channel_msg bolt s fetch md5_hex opens delivers true drawn media m w in
      (reply_of result.0, result.1)

  unfoldable pub combined_middleware :
      ℕ → HttpRequest → World bolt → Option (Option HttpReply × World bolt)
  unfolding handle_send_group_message handle_send_private_message handle_send_guild_channel_message
  combined_middleware fuel (send_group_msg r) w = known (handle_send_group_message fuel r w)
    where
      known : Option (HttpReply × World bolt) → Option (Option HttpReply × World bolt)
      known none = none
      known (some (reply, v)) = some (some reply, v)
  combined_middleware fuel (send_private_msg r) w = known (handle_send_private_message fuel r w)
    where
      known : Option (HttpReply × World bolt) → Option (Option HttpReply × World bolt)
      known none = none
      known (some (reply, v)) = some (some reply, v)
  combined_middleware fuel (send_guild_channel_msg r) w =
      let result = handle_send_guild_channel_message r w in some (some result.0, result.1)
  combined_middleware fuel unknown_path w = some (none, w)

  -- A message to a group of an unknown type, over HTTP, is answered with the status 200 and an empty body, and
  -- is not sent: the types that an action over a WebSocket tries in turn are not tried, since the
  -- action has no user. Its counter is that of the number 0, and is not positive once it has gone down.
  pub http_group_msg_lost :
      (fuel group : ℕ) (text : Text) (w : World bolt)
      → IsUntyped bolt s fetch md5_hex opens delivers true drawn media
          (action_for (codes "send_group_msg") (some (format_int group)) none text)
          w
          (format_int group)
      → (v : World bolt) × (handle_send_group_message (suc fuel) (some (group, text)) w
          ≡ some (done none, v))
        × (v.outbox ≡ w.outbox)
  unfolding handle_send_group_message
  http_group_msg_lost fuel group text w u =
      let (v, is, outbox, receipts) =
        group_msg_without_user bolt s fetch md5_hex opens delivers true drawn media
          (action_for (codes "send_group_msg") (some (format_int group)) none text) w
          (format_int group) fuel u in
      (v, rw is refl, outbox)
