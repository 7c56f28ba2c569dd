-- ===== src/Handlers/Send/Delivery.antt =====
-- A group whose type is known and whose number stands for a channel: the message of a group goes there.
use gensokyo_discord.Idmap.Remote
use gensokyo_discord.Prelude.{
  ℕ, suc, ◌+◌, ◌-◌, ◌%◌, Bool, true, false, Option, none, some, [], ◌∷◌, ◌++◌, ◌≡◌, refl, sym, ◌∙◌,
  Text, ◌==◌, codes, Outcome, ok, err, panicked, Bool-cases, eqb_refl, on_if, inl, inr,
}
use mathlib.Core.Path.{subst}
use gensokyo_discord.Strconv.{two_64}
use gensokyo_discord.Config.{Settings, get_app_id_str, get_string_ob11, get_idmap_pro}
use gensokyo_discord.Http.{Fetch}
use gensokyo_discord.Bolt.{Bolt}
use gensokyo_discord.Strconv.{format_int}
use gensokyo_discord.Echo.{get_msg_id_by_key, get_mapping, add_mapping}
use gensokyo_discord.Callapi.{ActionMessage}
use gensokyo_discord.Handlers.Reply.{compose}
use gensokyo_discord.Handlers.Types.{
  World, Sent, Media, Reply, to_channel, get_message_type_by_groupid, type_of_echo,
  get_message_id_by_userid_or_groupid,
}
use gensokyo_discord.Handlers.Send.Direct.{
  Receipt, find_type, send_to_channel, send_reply, send_response, channel_message_send,
  message_id_or_stored, known_message_id, channel_msg_of_type, handle_send_guild_channel_msg,
}
use gensokyo_discord.Handlers.Send.Retry.{
  Result, Dispatched, positive, id_of, count_down, next_type, after_switch, after_first, first_then,
  attempt, with_channel, goes_on, group_channel, switch_guild, switch_group, handle_send_group_msg,
}

module _ (bolt : Bolt) (s : Option Settings) (fetch : Fetch) (md5_hex : Text → Text)
    (opens : Text → Bool) (delivers : Sent → Bool) (answered : Bool) (drawn : Text → Text)
    (media : Media) (m : ActionMessage) (w : World bolt) (group channel : Text) where
  -- What is known about a group that has been heard of: its type is guild, and its number is read as a channel,
  -- whose own row can be looked up; the settings are those of one bot without the pair database.
  pub record IsKnown : Type 0 where
    pub of_group : m.params.group_id ≡ some group
    pub no_echo : m.echo ≡ none
    pub kind : get_message_type_by_groupid (get_app_id_str s) (some group) w.types ≡ codes "guild"
    pub real : Remote.retrieve_row_by_id_v2 bolt s fetch group w.ids ≡ ok channel
    pub row : ℕ
    pub stored : Remote.store_id_v2 bolt s fetch md5_hex channel w.ids ≡ ok (row, w.ids)
    pub single : get_idmap_pro s ≡ false
    pub numbered : get_string_ob11 s ≡ false
    pub named : channel == [] ≡ false
    pub reply : Reply
    pub composed : compose s media m.params.message ≡ ok reply
    pub arrives : delivers (to_channel channel reply) ≡ true
    pub last : positive ((get_mapping w.counters (id_of m).0 + (two_64 - 1)) % two_64) ≡ false

  module _ (k : IsKnown) where
    find_type-guild :
        (m' : ActionMessage)
        → m'.params.group_id ≡ some group
        → m'.echo ≡ none
        → find_type bolt s fetch md5_hex opens delivers answered drawn media m' w
          ≡ ok (codes "guild")
    unfolding find_type type_of_echo
    find_type-guild m' of_group no_echo = rw (no_echo, of_group, k.kind) refl

    group_channel-real :
        (user : Option Text)
        → group_channel bolt s fetch md5_hex opens delivers answered drawn media group user w
          ≡ ok channel
    unfolding group_channel
    group_channel-real none = rw (k.numbered, k.real) refl
    group_channel-real (some user) = rw (k.single, k.numbered, k.real) refl

    -- The message to reply to is found, and the database is as it was.
    message_id-found :
        (known : Text)
        → (x : Text) × (message_id_or_stored bolt s fetch md5_hex opens delivers answered drawn
              media known channel w
            ≡ ok (x, w))
    unfolding message_id_or_stored get_message_id_by_userid_or_groupid
    message_id-found known = elim (Bool-cases (known == [])) [
      | inl unknown ↦ (
        get_msg_id_by_key (get_app_id_str s ++ (b'_' ∷ format_int k.row)) w.types,
        rw (unknown, message_id_or_stored, get_message_id_by_userid_or_groupid, k.stored) refl,
      )
      | inr pooled ↦ (known, rw pooled refl)
    ]

    -- A result that sent the message once, to the channel.
    Arrived : Outcome Receipt × World bolt → Type 0
    Arrived d =
        ((r : Receipt) × (d.0 ≡ ok r))
        × (d.1.outbox ≡ w.outbox ++ (to_channel channel k.reply ∷ []))
        × (d.1.counters ≡ w.counters)

    response-Arrived :
        (echo : Option Text) (v : World bolt)
        → v.outbox ≡ w.outbox ++ (to_channel channel k.reply ∷ [])
        → v.counters ≡ w.counters
        → Arrived (send_response bolt s fetch md5_hex opens delivers answered drawn media echo v)
    unfolding send_response Arrived
    response-Arrived echo v sent counters =
        on_if Arrived answered ((_, refl), sent, counters) ((_, refl), sent, counters)

    abbrev m' : ActionMessage
    m' = with_channel bolt s fetch md5_hex opens delivers answered drawn media channel m

    channel-Arrived :
        Arrived (send_to_channel bolt s fetch md5_hex opens delivers answered drawn media m' w)
    unfolding send_to_channel send_reply channel_message_send
    channel-Arrived =
        let (x, found) = message_id-found (
          known_message_id bolt s fetch md5_hex opens delivers answered drawn media channel m' w) in
        rw (k.composed, send_to_channel, found, send_reply, k.arrives)
          (response-Arrived m.echo _ refl refl)

    guild_msg-Arrived : Arrived (
        handle_send_guild_channel_msg bolt s fetch md5_hex opens delivers answered drawn media m' w)
    unfolding handle_send_guild_channel_msg channel_msg_of_type
    guild_msg-Arrived =
        rw (find_type-guild m' k.of_group k.no_echo, handle_send_guild_channel_msg) channel-Arrived

    outbox-count_down : (n : ℕ) (v : World bolt) → (count_down bolt s n v).outbox ≡ v.outbox
    unfolding count_down
    outbox-count_down n v = elim (Bool-cases (positive (get_mapping v.counters n))) [
      | inl more ↦ rw (more, count_down) refl
      | inr done ↦ rw (done, count_down) refl
    ]

    -- What the handler leaves when it does not start over.
    Delivered : Option (Result bolt s) → Type 0
    Delivered o =
        (r : Receipt) × (v : World bolt) × (o ≡ some (ok r, v))
        × (v.outbox ≡ w.outbox ++ (to_channel channel k.reply ∷ []))

    after-Delivered :
        (find : ActionMessage → World bolt → Outcome Text)
        (switch : Text → Receipt → ActionMessage → World bolt → Dispatched bolt s)
        (again : ActionMessage → World bolt → Option (Result bolt s))
        (d : Outcome Receipt × World bolt)
        → Arrived d
        → Delivered (
            after_switch bolt s find switch true false again
              (id_of m).0
              (goes_on bolt s fetch md5_hex opens delivers answered drawn media m' d))
    unfolding Delivered Arrived after_switch next_type count_down get_mapping add_mapping
    after-Delivered find switch again (ok r, v) (returned, sent, counters) =
        let done : positive ((get_mapping v.counters (id_of m).0 + (two_64 - 1)) % two_64) ≡ false =
          rw counters k.last in
        (
          r,
          count_down bolt s (id_of m).0 v,
          rw (eqb_refl (id_of m).0, done) refl,
          outbox-count_down (id_of m).0 v ∙ sent,
        )
    after-Delivered find switch again (err e, v) ((r, is), sent, counters) = cc
    after-Delivered find switch again (panicked, v) ((r, is), sent, counters) = cc

    switch-guild :
        (before : Receipt)
        → switch_group bolt s fetch md5_hex opens delivers answered drawn media
            (codes "guild")
            before
            m
            w
          ≡ goes_on bolt s fetch md5_hex opens delivers answered drawn media m' (
              handle_send_guild_channel_msg bolt s fetch md5_hex opens delivers answered drawn media
                m' w)
    unfolding switch_group switch_guild
    switch-guild before =
        subst
          (λ (o : Option Text).
            elim o as (λ _. Dispatched bolt s) [
              | none ↦ (panicked, w)
              | some g ↦
                  elim (group_channel bolt s fetch md5_hex opens delivers answered drawn media g
                      m.params.user_id w)
                    as (λ _. Dispatched bolt s) [
                      | ok c ↦
                          goes_on bolt s fetch md5_hex opens delivers answered drawn media
                            (with_channel bolt s fetch md5_hex opens delivers answered drawn media c
                              m)
                            (handle_send_guild_channel_msg bolt s fetch md5_hex opens delivers
                              answered drawn media
                              (with_channel bolt s fetch md5_hex opens delivers answered drawn media
                                c m)
                              w)
                      | err e ↦ (err e, w)
                      | panicked ↦ (panicked, w)
                    ]
            ]
            ≡ goes_on bolt s fetch md5_hex opens delivers answered drawn media m' (
                handle_send_guild_channel_msg bolt s fetch md5_hex opens delivers answered drawn
                  media m' w))
          (sym k.of_group) (rw (group_channel-real m.params.user_id) refl)

    -- A message of a group that is known as a channel comes out of `HandleSendGroupMsg` in the first call: it is
    -- sent once, to that channel, and nothing else is sent.
    pub group_msg_reaches_channel :
        (fuel : ℕ)
        → (r : Receipt) × (v : World bolt) × (handle_send_group_msg bolt s fetch md5_hex opens
              delivers answered drawn media
              (suc fuel)
              m
              w
            ≡ some (ok r, v))
          × (v.outbox ≡ w.outbox ++ (to_channel channel k.reply ∷ []))
    unfolding handle_send_group_msg attempt first_then after_first Delivered
    group_msg_reaches_channel fuel =
        let find = find_type bolt s fetch md5_hex opens delivers answered drawn media in
        let switch = switch_group bolt s fetch md5_hex opens delivers answered drawn media in
        rw
          (
            find_type-guild m k.of_group k.no_echo,
            handle_send_group_msg,
            attempt,
            first_then,
            switch-guild none,
          )
          (after-Delivered find switch (attempt bolt s find switch true false fuel)
            (handle_send_guild_channel_msg bolt s fetch md5_hex opens delivers answered drawn media
              m' w)
            guild_msg-Arrived)
