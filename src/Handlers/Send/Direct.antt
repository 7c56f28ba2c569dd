-- ===== src/Handlers/Send/Direct.antt =====
-- The actions that send at once: handlers/send_guild_channel_msg.go, and the second half of
-- handlers/send_private_msg.go. Discord is two tests, whether a private channel to a user can be opened
-- and whether a message is delivered; `answered` says whether the OneBot client can be reached, and
-- `drawn` is what `GetLazyMessagesId` draws. `media` are the libraries
-- by which the content of the message is read and made.
use gensokyo_discord.Prelude.{
  ◌+◌, ◌%◌, Bool, not, ◌&&◌, Option, none, some, [], ◌∷◌, ◌++◌, Text, ◌==◌, codes, Outcome, ok, err,
  panicked, send_failed, if◌then◌else◌, ◌>>=◌,
}
use gensokyo_discord.Strconv.{two_64}
use gensokyo_discord.Config.{
  Settings, get_app_id_str, get_idmap_pro, get_lazy_message_id, get_dev_msg_id,
}
use gensokyo_discord.Http.{Fetch}
use gensokyo_discord.Bolt.{Bolt}
use gensokyo_discord.Idmap.Remote
use gensokyo_discord.Idmap.Remote.Config as Remote_config
use gensokyo_discord.Echo.{get_mapping_seq, add_mapping_seq}
use gensokyo_discord.Callapi.{ActionMessage}
use gensokyo_discord.Handlers.Reply.{compose}
use gensokyo_discord.Handlers.Types.{
  World, Sent, Media, Reply, to_channel, to_user, or_empty, or_else, type_of_echo, id_of_echo,
  get_message_type_by_groupid, get_message_type_by_userid, get_message_type_by_groupid_v2,
  get_message_type_by_userid_v2, get_message_id_by_userid_or_groupid,
}

-- What an action answers: the receipt's echo where the receipt was sent, otherwise the empty text.
abbrev pub Receipt : Type 0
Receipt = Option (Option Text)

module _ (bolt : Bolt) (s : Option Settings) (fetch : Fetch) (md5_hex : Text → Text)
    (opens : Text → Bool) (delivers : Sent → Bool) (answered : Bool) (drawn : Text → Text)
    (media : Media) where
  abbrev pub Done : Type 0
  Done = Outcome Receipt × World bolt

  -- `SendResponse`
  unfoldable pub send_response : Option Text → World bolt → Done
  send_response echo w =
      if answered
      then (ok (some echo), record w { receipts = w.receipts ++ (echo ∷ []) })
      else (ok none, w)

  -- The message to reply to, by the message pool and the echo.
  unfoldable pub known_message_id : Text → ActionMessage → World bolt → Text
  unfolding id_of_echo
  known_message_id key m w =
      let pooled = if get_lazy_message_id s then drawn key else [] in
      if pooled == [] then id_of_echo m.echo w.types else pooled

  unfoldable pub message_id_or_stored : Text → Text → World bolt → Outcome (Text × World bolt)
  message_id_or_stored known id w =
      if known == []
      then get_message_id_by_userid_or_groupid bolt s fetch md5_hex id w
      else ok (known, w)

  -- Discord takes the message or not.
  unfoldable pub channel_message_send : Sent → World bolt → Option (World bolt)
  channel_message_send sent w =
      if delivers sent then some (record w { outbox = w.outbox ++ (sent ∷ []) }) else none

  -- the lookups of `RetrieveRowByIDv2Pro` and `RetrieveRowByIDv2` for a user
  unfoldable pub real_user : Text → Text → World bolt → Outcome Text
  real_user group user w =
      if not (group == []) && get_idmap_pro s
      then (do pair ← Remote.retrieve_row_by_id_v2_pro bolt s fetch group user w.ids; ok pair.1)
      else Remote.retrieve_row_by_id_v2 bolt s fetch user w.ids

  -- a user that was not given is the setting `user_id` of the group
  unfoldable pub raw_user : Text → Text → World bolt → Outcome Text
  raw_user group user w =
      if user == []
      then or_empty (Remote_config.read_config_v2 bolt s fetch group (codes "user_id") w.settings)
      else ok user

  abbrev private_target : Text → Text → World bolt → Outcome Text
  private_target group user w = raw_user group user w >>= λ raw. real_user group raw w

  -- From the private channel on.
  unfoldable pub send_private : Text → Reply → ActionMessage → World bolt → Done
  unfolding channel_message_send send_response
  send_private user reply m w =
      if opens user
      then elim (channel_message_send (to_user user reply) w) as (λ _. Done) [
        | none ↦ (ok none, w)
        | some w' ↦ send_response m.echo w'
      ]
      else (ok none, w)

  abbrev or_text : Option Text → Text
  or_text none = []
  or_text (some t) = t

  unfoldable pub private_with : Text → Text → Reply → ActionMessage → World bolt → Done
  unfolding known_message_id message_id_or_stored send_private real_user raw_user
  private_with group user reply m w = elim (private_target group user w) as (λ _. Done) [
    | err e ↦ (ok none, w)
    | panicked ↦ (panicked, w)
    | ok real ↦ elim (message_id_or_stored (known_message_id user m w) real w) as (λ _. Done) [
      | ok found ↦ send_private real reply m found.1
      | err e ↦ (err e, w)
      | panicked ↦ (panicked, w)
    ]
  ]

  -- The last two arguments of the Go function are not used there. The content is read first, and the message
  -- is made of it where it is sent: nothing in between changes what is made.
  unfoldable pub handle_send_guild_channel_private_msg : ActionMessage → World bolt → Done
  unfolding private_with compose
  handle_send_guild_channel_private_msg m w =
      elim (compose s media m.params.message) as (λ _. Done) [
        | err e ↦ (err e, w)
        | panicked ↦ (panicked, w)
        | ok reply ↦ elim m.params.user_id as (λ _. Done) [
          | none ↦ (panicked, w)
          | some user ↦ private_with (or_text m.params.group_id) user reply m w
        ]
      ]

  -- The type of the conversation: by the echo, then by the group and the user in memory, then in the
  -- database.
  unfoldable pub find_type : ActionMessage → World bolt → Outcome Text
  unfolding type_of_echo get_message_type_by_groupid get_message_type_by_userid
  find_type m w = or_else (ok (type_of_echo m.echo w.types)) (
      or_else (ok (get_message_type_by_groupid (get_app_id_str s) m.params.group_id w.types)) (
        or_else (ok (get_message_type_by_userid (get_app_id_str s) m.params.user_id w.types)) (
          or_else (get_message_type_by_groupid_v2 bolt s fetch m.params.group_id w)
            (get_message_type_by_userid_v2 bolt s fetch m.params.user_id w))))

  -- The branch `guild`, for a content that could be read.
  unfoldable pub send_reply : Reply → ActionMessage → World bolt → Done
  unfolding known_message_id message_id_or_stored channel_message_send send_response
  send_reply reply m w =
      let channel = m.params.channel_id in
      elim (message_id_or_stored (known_message_id channel m w) channel w) as (λ _. Done) [
        | err e ↦ (err e, w)
        | panicked ↦ (panicked, w)
        | ok found ↦
            (let id = if get_dev_msg_id s then codes "1000" else found.0 in
              let next = (get_mapping_seq (found.1).sequences id + 1) % two_64 in
              let counted : World bolt = record (found.1) {
                sequences = add_mapping_seq id next (found.1).sequences;
              } in
              elim (channel_message_send (to_channel channel reply) counted) as (λ _. Done) [
                | none ↦ (err send_failed, counted)
                | some w' ↦ send_response m.echo w'
              ])
      ]

  unfoldable pub send_to_channel : ActionMessage → World bolt → Done
  unfolding compose send_reply
  send_to_channel m w = elim (compose s media m.params.message) as (λ _. Done) [
    | err e ↦ (err e, w)
    | panicked ↦ (panicked, w)
    | ok reply ↦ send_reply reply m w
  ]

  -- An error of a handler that is called is dropped, with its answer.
  abbrev pub answer_only : Done → Done
  answer_only (ok r, w) = (ok r, w)
  answer_only (err e, w) = (ok none, w)
  answer_only (panicked, w) = (panicked, w)

  unfoldable pub channel_msg_of_type : Text → ActionMessage → World bolt → Done
  unfolding send_to_channel handle_send_guild_channel_private_msg
  channel_msg_of_type kind m w =
      if kind == codes "guild"
      then send_to_channel m w
      else if kind == codes "guild_private"
      then elim (or_empty (Remote.retrieve_row_by_id_v2 bolt s fetch m.params.channel_id w.ids))
          as (λ _. Done) [
            | ok channel ↦ answer_only (handle_send_guild_channel_private_msg m w)
            | err e ↦ (err e, w)
            | panicked ↦ (panicked, w)
          ]
      else (ok none, w)

  unfoldable pub handle_send_guild_channel_msg : ActionMessage → World bolt → Done
  unfolding find_type channel_msg_of_type
  handle_send_guild_channel_msg m w = elim (find_type m w) as (λ _. Done) [
    | ok kind ↦ channel_msg_of_type (if kind == [] then codes "guild" else kind) m w
    | err e ↦ (err e, w)
    | panicked ↦ (panicked, w)
  ]
