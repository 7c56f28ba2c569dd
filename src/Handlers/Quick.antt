-- ===== src/Handlers/Quick.antt =====
-- handlers/handle_quick_operation.go: a reply that comes with the context of an event.
use gensokyo_discord.Prelude.{
  ℕ, Bool, Option, none, some, [], Text, ◌==◌, codes, ok, err, panicked, if◌then◌else◌,
}
use gensokyo_discord.Strconv.{format_int}
use gensokyo_discord.Config.{Settings}
use gensokyo_discord.Http.{Fetch}
use gensokyo_discord.Bolt.{Bolt}
use gensokyo_discord.Callapi.{Value, ActionMessage}
use gensokyo_discord.Handlers.Types.{World, Sent, Media}
use gensokyo_discord.Handlers.Send.Retry.{handle_send_group_msg, handle_send_private_msg, Result}

-- The fields of `Context` and `Operation` that are read.
pub record Quick : Type 0 where
  pub message_type : Text
  pub group_id : ℕ
  pub user_id : ℕ
  pub reply : Text

abbrev pub action_for : Text → (group user : Option Text) → Text → ActionMessage
action_for action group user text = record {
  action = action;
  params = record {
    channel_id = [];
    guild_id = [];
    group_id = group;
    user_id = user;
    message = Value.string text;
  };
  echo = none;
}

unfoldable pub create_send_group_msg_action : Quick → Option ActionMessage
create_send_group_msg_action q =
    if q.message_type == codes "group"
    then some (action_for (codes "send_group_msg") (some (format_int q.group_id)) none q.reply)
    else if q.message_type == codes "private"
    then some (action_for (codes "send_private_msg") none (some (format_int q.user_id)) q.reply)
    else none

module _ (bolt : Bolt) (s : Option Settings) (fetch : Fetch) (md5_hex : Text → Text)
    (opens : Text → Bool) (delivers : Sent → Bool) (answered : Bool) (drawn : Text → Text)
    (media : Media) where
  -- The error of the handler is dropped.
  abbrev without_error : Option (Result bolt s) → Option (Result bolt s)
  without_error none = none
  without_error (some (ok r, w)) = some (ok r, w)
  without_error (some (err e, w)) = some (ok none, w)
  without_error (some (panicked, w)) = some (panicked, w)

  unfoldable pub handle_quick_operation : ℕ → Quick → World bolt → Option (Result bolt s)
  unfolding create_send_group_msg_action
  handle_quick_operation fuel q w =
      elim (create_send_group_msg_action q) as (λ _. Option (Result bolt s)) [
        | none ↦ some (ok none, w)
        | some m ↦
            (if m.action == codes "send_group_msg"
              then without_error (
                  handle_send_group_msg bolt s fetch md5_hex opens delivers answered drawn media
                    fuel m w)
              else without_error (
                  handle_send_private_msg bolt s fetch md5_hex opens delivers answered drawn media
                    fuel m w))
      ]
