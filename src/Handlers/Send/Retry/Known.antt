-- ===== src/Handlers/Send/Retry/Known.antt =====
-- What the sending actions leave alone: the counters and the identifiers of the message.
use gensokyo_discord.Idmap.Remote
use gensokyo_discord.Idmap.Remote.Config as Remote_config
use gensokyo_discord.Prelude.{
  on_if, on_option, on_outcome, Bool, true, false, Option, none, some, [], ◌∷◌, ◌++◌, ◌≡◌, refl,
  ◌∙◌, Text, ◌==◌, codes, Outcome, ok, err, panicked, Error, ◌>>=◌, Bool-cases, inl, inr,
  if◌then◌else◌,
}
use gensokyo_discord.Config.{Settings}
use gensokyo_discord.Http.{Fetch}
use gensokyo_discord.Bolt.{Bolt}
use gensokyo_discord.Callapi.{ActionMessage}
use gensokyo_discord.Handlers.Reply.{compose}
use gensokyo_discord.Handlers.Types.{
  World, Sent, Media, Reply, to_user, to_channel, or_empty, get_message_id_by_userid_or_groupid,
}
use gensokyo_discord.Handlers.Send.Direct.{
  Receipt, answer_only, find_type, raw_user, real_user, known_message_id, send_response,
  message_id_or_stored, channel_message_send, send_private, private_with,
  handle_send_guild_channel_private_msg, send_to_channel, send_reply, channel_msg_of_type,
  handle_send_guild_channel_msg,
}
use gensokyo_discord.Handlers.Send.Retry.{
  Dispatched, with_channel, goes_on, group_channel, msg_channel, private_channel, switch_guild,
  switch_group_private, switch_group, switch_private, switch_msg, switch_private_msg,
}

module _ (bolt : Bolt) (s : Option Settings) (fetch : Fetch) (md5_hex : Text → Text)
    (opens : Text → Bool) (delivers : Sent → Bool) (answered : Bool) (drawn : Text → Text)
    (media : Media) where
  -- The counters of a result are those of the world.
  unfoldable pub Keeps : World bolt → Outcome Receipt × World bolt → Type 0
  Keeps w d = d.1.counters ≡ w.counters

  response-Keeps :
      (echo : Option Text) (w : World bolt)
      → Keeps w (send_response bolt s fetch md5_hex opens delivers answered drawn media echo w)
  unfolding send_response Keeps
  response-Keeps echo w = on_if (Keeps w) answered refl refl

  StoredKeeps : World bolt → Outcome (Text × World bolt) → Type 0
  StoredKeeps w (ok r) = r.1.counters ≡ w.counters
  StoredKeeps w (err e) = Unit
  StoredKeeps w panicked = Unit

  stored-Keeps :
      (known id : Text) (w : World bolt)
      → StoredKeeps w
          (message_id_or_stored bolt s fetch md5_hex opens delivers answered drawn media known id w)
  unfolding message_id_or_stored get_message_id_by_userid_or_groupid StoredKeeps
  stored-Keeps known id w =
      on_if (StoredKeeps w) (known == [])
        (on_outcome (StoredKeeps w) (Remote.store_id_v2 bolt s fetch md5_hex id w.ids) (λ r. refl)
          (λ e. refl) tt)
        refl

  sent-Keeps :
      (sent : Sent) (echo : Option Text) (w : World bolt) (failed : Outcome Receipt × World bolt)
      → Keeps w failed
      → Keeps w
          (elim (channel_message_send bolt s fetch md5_hex opens delivers answered drawn media sent
              w)
            as (λ _. Outcome Receipt × World bolt) [
              | none ↦ failed
              | some w' ↦
                  send_response bolt s fetch md5_hex opens delivers answered drawn media echo w'
            ])
  unfolding channel_message_send Keeps
  sent-Keeps sent echo w failed kept = elim (Bool-cases (delivers sent)) [
    | inl arrives ↦ rw arrives (response-Keeps echo (record w { outbox = w.outbox ++ (sent ∷ []) }))
    | inr lost ↦ rw lost kept
  ]

  send_private-Keeps :
      (user : Text) (reply : Reply) (m : ActionMessage) (w : World bolt)
      → Keeps w
          (send_private bolt s fetch md5_hex opens delivers answered drawn media user reply m w)
  unfolding send_private Keeps
  send_private-Keeps user reply m w =
      on_if (Keeps w) (opens user) (sent-Keeps (to_user user reply) m.echo w (ok none, w) refl) refl

  with_stored :
      (w : World bolt) (o : Outcome (Text × World bolt))
      (f : Text × World bolt → Outcome Receipt × World bolt)
      (g : Error → Outcome Receipt × World bolt) (b : Outcome Receipt × World bolt)
      → StoredKeeps w o
      → ((r : Text × World bolt) → r.1.counters ≡ w.counters → Keeps w (f r))
      → ((e : Error) → Keeps w (g e))
      → Keeps w b
      → Keeps w (elim o as (λ _. Outcome Receipt × World bolt) [
        | ok r ↦ f r
        | err e ↦ g e
        | panicked ↦ b
      ])
  unfolding Keeps StoredKeeps
  with_stored w (ok r) f g b kept h k l = h r kept
  with_stored w (err e) f g b kept h k l = k e
  with_stored w panicked f g b kept h k l = l

  private_with-Keeps :
      (group user : Text) (reply : Reply) (m : ActionMessage) (w : World bolt)
      → Keeps w (
          private_with bolt s fetch md5_hex opens delivers answered drawn media group user reply m
            w)
  unfolding private_with Keeps
  private_with-Keeps group user reply m w =
      on_outcome (Keeps w)
        (raw_user bolt s fetch md5_hex opens delivers answered drawn media group user w >>= λ raw.
          real_user bolt s fetch md5_hex opens delivers answered drawn media group raw w)
        (λ real.
          with_stored w
            (message_id_or_stored bolt s fetch md5_hex opens delivers answered drawn media
              (known_message_id bolt s fetch md5_hex opens delivers answered drawn media user m w)
              real w)
            _ _ _
            (stored-Keeps
              (known_message_id bolt s fetch md5_hex opens delivers answered drawn media user m w)
              real w)
            (λ r kept. send_private-Keeps real reply m r.1 ∙ kept) (λ e. refl) refl)
        (λ e. refl) refl

  pub private_msg-Keeps :
      (m : ActionMessage) (w : World bolt)
      → Keeps w (
          handle_send_guild_channel_private_msg bolt s fetch md5_hex opens delivers answered drawn
            media m w)
  unfolding handle_send_guild_channel_private_msg Keeps
  private_msg-Keeps m w =
      on_outcome (Keeps w) (compose s media m.params.message)
        (λ reply.
          on_option (Keeps w) m.params.user_id refl (λ user. private_with-Keeps _ user reply m w))
        (λ e. refl) refl

  send_reply-Keeps :
      (reply : Reply) (m : ActionMessage) (w : World bolt)
      → Keeps w (send_reply bolt s fetch md5_hex opens delivers answered drawn media reply m w)
  unfolding send_reply Keeps
  send_reply-Keeps reply m w =
      with_stored w
        (message_id_or_stored bolt s fetch md5_hex opens delivers answered drawn media
          (known_message_id bolt s fetch md5_hex opens delivers answered drawn media
            m.params.channel_id m w)
          m.params.channel_id w)
        _ _ _
        (stored-Keeps
          (known_message_id bolt s fetch md5_hex opens delivers answered drawn media
            m.params.channel_id m w)
          m.params.channel_id w)
        (λ r kept. sent-Keeps (to_channel m.params.channel_id reply) m.echo _ _ refl ∙ kept)
        (λ e. refl) refl

  send_to_channel-Keeps :
      (m : ActionMessage) (w : World bolt)
      → Keeps w (send_to_channel bolt s fetch md5_hex opens delivers answered drawn media m w)
  unfolding send_to_channel Keeps
  send_to_channel-Keeps m w =
      on_outcome (Keeps w) (compose s media m.params.message) (λ reply. send_reply-Keeps reply m w)
        (λ e. refl) refl

  answer-Keeps :
      (w : World bolt) (d : Outcome Receipt × World bolt)
      → Keeps w d
      → Keeps w (answer_only bolt s fetch md5_hex opens delivers answered drawn media d)
  unfolding Keeps
  answer-Keeps w (ok r, w') kept = kept
  answer-Keeps w (err e, w') kept = kept
  answer-Keeps w (panicked, w') kept = kept

  channel_msg_of_type-Keeps :
      (kind : Text) (m : ActionMessage) (w : World bolt)
      → Keeps w
          (channel_msg_of_type bolt s fetch md5_hex opens delivers answered drawn media kind m w)
  unfolding channel_msg_of_type Keeps
  channel_msg_of_type-Keeps kind m w =
      on_if (Keeps w) (kind == codes "guild") (send_to_channel-Keeps m w) (
        on_if (Keeps w) (kind == codes "guild_private")
          (on_outcome (Keeps w)
            (or_empty (Remote.retrieve_row_by_id_v2 bolt s fetch m.params.channel_id w.ids))
            (λ channel. answer-Keeps w _ (private_msg-Keeps m w)) (λ e. refl) refl)
          refl)

  pub channel_msg-Keeps :
      (m : ActionMessage) (w : World bolt)
      → Keeps w (
          handle_send_guild_channel_msg bolt s fetch md5_hex opens delivers answered drawn media m
            w)
  unfolding handle_send_guild_channel_msg Keeps
  channel_msg-Keeps m w =
      on_outcome (Keeps w) (find_type bolt s fetch md5_hex opens delivers answered drawn media m w)
        (λ kind. channel_msg_of_type-Keeps (if kind == [] then codes "guild" else kind) m w)
        (λ e. refl) refl

  -- After the `switch` the counters are as before, and the message has the same identifiers.
  unfoldable pub SwitchKeeps : ActionMessage → World bolt → Dispatched bolt s → Type 0
  SwitchKeeps m w (ok (m', reply, goes_on), w') =
      (w'.counters ≡ w.counters)
      × (m'.params.user_id ≡ m.params.user_id)
      × (m'.params.group_id ≡ m.params.group_id)
      × (m'.echo ≡ m.echo)
  SwitchKeeps m w (err e, w') = w'.counters ≡ w.counters
  SwitchKeeps m w (panicked, w') = w'.counters ≡ w.counters

  goes_on-Keeps :
      (m m' : ActionMessage) (w : World bolt) (d : Outcome Receipt × World bolt)
      → Keeps w d
      → m'.params.user_id ≡ m.params.user_id
      → m'.params.group_id ≡ m.params.group_id
      → m'.echo ≡ m.echo
      → SwitchKeeps m w (goes_on bolt s fetch md5_hex opens delivers answered drawn media m' d)
  unfolding SwitchKeeps Keeps
  goes_on-Keeps m m' w (ok r, w') kept user group echo = (kept, user, group, echo)
  goes_on-Keeps m m' w (err e, w') kept user group echo = (kept, user, group, echo)
  goes_on-Keeps m m' w (panicked, w') kept user group echo = kept

  untouched :
      (m : ActionMessage) (w : World bolt) (r : Receipt) (b : Bool)
      → SwitchKeeps m w (ok (m, r, b), w)
  unfolding SwitchKeeps
  untouched m w r b = (refl, refl, refl, refl)

  switch_guild-Keeps :
      (channel_of : Text → Option Text → World bolt → Outcome Text) (m : ActionMessage)
      (w : World bolt)
      → SwitchKeeps m w
          (switch_guild bolt s fetch md5_hex opens delivers answered drawn media channel_of m w)
  unfolding switch_guild SwitchKeeps
  switch_guild-Keeps channel_of m w = on_option (SwitchKeeps m w) m.params.group_id refl (λ group.
      on_outcome (SwitchKeeps m w) (channel_of group m.params.user_id w)
        (λ channel.
          goes_on-Keeps m
            (with_channel bolt s fetch md5_hex opens delivers answered drawn media channel m) w _
            (channel_msg-Keeps
              (with_channel bolt s fetch md5_hex opens delivers answered drawn media channel m) w)
            refl refl refl)
        (λ e. refl) refl)

  switch_private-Keeps :
      (m : ActionMessage) (w : World bolt)
      → SwitchKeeps m w
          (switch_private bolt s fetch md5_hex opens delivers answered drawn media m w)
  unfolding switch_private
  switch_private-Keeps m w = goes_on-Keeps m m w _ (private_msg-Keeps m w) refl refl refl

  broken_off : (m : ActionMessage) (w : World bolt) → SwitchKeeps m w (panicked, w)
  unfolding SwitchKeeps
  broken_off m w = refl

  switch_group_private-Keeps :
      (m : ActionMessage) (w : World bolt)
      → SwitchKeeps m w
          (switch_group_private bolt s fetch md5_hex opens delivers answered drawn media m w)
  unfolding switch_group_private
  switch_group_private-Keeps m w =
      on_option (SwitchKeeps m w) m.params.group_id (broken_off m w) (λ group.
        on_option (SwitchKeeps m w) m.params.user_id (untouched m w none false) (λ user.
          on_outcome (SwitchKeeps m w)
            (private_channel bolt s fetch md5_hex opens delivers answered drawn media group user w
              >>= λ channel.
                  Remote_config.read_config_v2 bolt s fetch channel (codes "guild_id") w.settings)
            (λ guild.
              goes_on-Keeps m
                (with_channel bolt s fetch md5_hex opens delivers answered drawn media group m) w _
                (private_msg-Keeps
                  (with_channel bolt s fetch md5_hex opens delivers answered drawn media group m) w)
                refl refl refl)
            (λ e. untouched m w none false) (broken_off m w)))

  module _ (kind : Text) (before : Receipt) (m : ActionMessage) (w : World bolt) where
    pub switch_group-Keeps :
        SwitchKeeps m w
          (switch_group bolt s fetch md5_hex opens delivers answered drawn media kind before m w)
    unfolding switch_group SwitchKeeps
    switch_group-Keeps =
        on_if (SwitchKeeps m w) (kind == codes "guild")
          (switch_guild-Keeps
            (group_channel bolt s fetch md5_hex opens delivers answered drawn media) m w)
          (on_if (SwitchKeeps m w) (kind == codes "guild_private") (switch_group_private-Keeps m w)
            (untouched m w before true))

    pub switch_msg-Keeps :
        SwitchKeeps m w
          (switch_msg bolt s fetch md5_hex opens delivers answered drawn media kind before m w)
    unfolding switch_msg SwitchKeeps
    switch_msg-Keeps =
        on_if (SwitchKeeps m w) (kind == codes "guild")
          (switch_guild-Keeps (msg_channel bolt s fetch md5_hex opens delivers answered drawn media)
            m w)
          (on_if (SwitchKeeps m w) (kind == codes "guild_private") (switch_private-Keeps m w)
            (untouched m w before true))

    pub switch_private_msg-Keeps : SwitchKeeps m w (
        switch_private_msg bolt s fetch md5_hex opens delivers answered drawn media kind before m w)
    unfolding switch_private_msg SwitchKeeps
    switch_private_msg-Keeps =
        on_if (SwitchKeeps m w) (kind == codes "guild_private") (switch_private-Keeps m w)
          (untouched m w before true)
