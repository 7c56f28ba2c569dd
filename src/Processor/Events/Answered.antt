-- ===== src/Processor/Events/Answered.antt =====
-- The way back: an answer to the group of an event goes to the channel that the event came from.
use gensokyo_discord.Prelude.{
  ℕ, suc, ◌+◌, ◌-◌, ◌%◌, Bool, true, false, Option, none, some, [], ◌∷◌, ◌++◌, ◌≡◌, refl, sym, ap,
  ◌∙◌, Text, ◌==◌, codes, Outcome, ok, err, panicked, Outcome-cases, on_outcome, inl, inr,
}
use mathlib.Core.Path.{subst}
use gensokyo_discord.Strconv.{format_int, two_64}
use gensokyo_discord.Config.{Settings, get_app_id_str}
use gensokyo_discord.Http.{Fetch}
use gensokyo_discord.Bolt.{Bolt}
use gensokyo_discord.Echo.{get_mapping, add_msg_id_v2}
use gensokyo_discord.Idmap.Keys.{is_plain}
use gensokyo_discord.Idmap.Ids.{store_id}
use gensokyo_discord.Idmap.Ids.Consistent.{IsConsistent}
use gensokyo_discord.Idmap.Ids.Store.{
  IsStored, hashed_row-IsFree, store_id_old, store_id_lem, store_id_keeps,
}
use gensokyo_discord.Idmap.Ids.RoundTrip.{stored-IsReadable}
use gensokyo_discord.Idmap.Remote
use gensokyo_discord.Handlers.Reply.{compose}
use gensokyo_discord.Idmap.Remote.Config as Remote_config
use gensokyo_discord.Callapi.{ActionMessage}
use gensokyo_discord.Handlers.Types.{
  World, Sent, Media, Reply, to_channel, get_message_type_by_groupid,
}
use gensokyo_discord.Handlers.Send.Direct.{Receipt}
use gensokyo_discord.Handlers.Send.Retry.{positive, id_of, handle_send_group_msg}
use gensokyo_discord.Handlers.Send.Retry.Returns.{group-set}
use gensokyo_discord.Handlers.Send.Delivery.{IsKnown, group_msg_reaches_channel}
use gensokyo_discord.Handlers.Revert.{Incoming}
use gensokyo_discord.Processor.Events.{number, group, Report, State, Result, write_quietly}
use gensokyo_discord.Processor.Events.Guild.{report_group, mapped}

module _ (bolt : Bolt) (p : Settings) (fetch : Fetch) (md5_hex : Text → Text) (random : Option ℕ)
    (discord : Bool × Bool) (opens : Text → Bool) (delivers : Sent → Bool) (bot app : Text)
    (seq now : ℕ) where
  -- A setting that is written leaves the rows, the maps and the messages alone.
  Keeps : State bolt → Outcome (State bolt) → Type 0
  Keeps st (ok st') =
      (st'.world.ids ≡ st.world.ids)
      × (st'.world.types ≡ st.world.types)
      × (st'.world.counters ≡ st.world.counters)
      × (st'.world.outbox ≡ st.world.outbox)
  Keeps st (err e) = Unit
  Keeps st panicked = Unit

  write-Keeps :
      (section key value : Text) (st : State bolt)
      → Keeps st (
          write_quietly bolt p fetch md5_hex random discord opens delivers bot app seq now section
            key value st)
  unfolding write_quietly Keeps
  write-Keeps section key value st =
      on_outcome (Keeps st)
        (Remote_config.write_config_v2 bolt (some p) fetch section key value st.world.settings)
        (λ settings. (refl, refl, refl, refl)) (λ e. (refl, refl, refl, refl)) tt

  module _ (row user message : ℕ) (text : Text) (m : Incoming) (st : State bolt) where
    -- What the event says and what is remembered of it.
    Noted : Result bolt p fetch md5_hex random discord opens delivers bot app seq now → Type 0
    Noted (ok (some r, st')) =
        ((bound : Bool) × (r.conversation ≡ group (number row) bound))
        × (get_message_type_by_groupid (get_app_id_str (some p)) (some (format_int row))
              st'.world.types
            ≡ codes "guild")
        × (st'.world.ids ≡ st.world.ids)
        × (st'.world.counters ≡ st.world.counters)
        × (st'.world.outbox ≡ st.world.outbox)
    Noted (ok (none, st')) = Unit
    Noted (err e) = Unit
    Noted panicked = Unit

    report_group-Noted : Noted (
        report_group bolt p fetch md5_hex random discord opens delivers bot app seq now row user
          message text m st)
    unfolding report_group Noted Keeps
    report_group-Noted =
        let st1 =
          mapped bolt p fetch md5_hex random discord opens delivers bot app seq now (codes "guild")
            row m st in
        let st2 : State bolt = record st1 {
          world = record (st1.world) {
            types = add_msg_id_v2 (get_app_id_str (some p)) row user m.id st1.world.types;
          };
        } in
        let kept = write-Keeps (format_int row) (codes "type") (codes "guild") st2 in
        elim (Outcome-cases (
          write_quietly bolt p fetch md5_hex random discord opens delivers bot app seq now
            (format_int row) (codes "type") (codes "guild") st2)) [
              | inl (st3, is) ↦
                  (let (ids, types, counters, outbox) = subst (Keeps st2) is kept in
                    rw (is, report_group)
                      (
                        (_, refl),
                        group-set (get_app_id_str (some p)) row (codes "guild") st3.world.types
                            (some (format_int row)) refl,
                        ids,
                        counters,
                        outbox,
                      ))
              | inr (inl (e, is)) ↦ rw (is, report_group) tt
              | inr (inr is) ↦ rw (is, report_group) tt
            ]

    module _ (b0 b1 b2 : Bolt.Bucket bolt) where
      -- The stores of an event, in their order: the channel, the author and the message.
      pub record IsRecorded : Type 0 where
        pub local : p.lotus ≡ false
        pub hashed : p.hash_id ≡ true
        pub consistent : IsConsistent bolt b0
        pub plain_channel : is_plain m.channel_id ≡ true
        pub plain_author : is_plain m.author_id ≡ true
        pub plain_message : is_plain m.id ≡ true
        pub channel_stored :
            Remote.store_id_v2 bolt (some p) fetch md5_hex m.channel_id b0 ≡ ok (row, b1)
        pub author_stored :
            Remote.store_id_v2 bolt (some p) fetch md5_hex m.author_id b1 ≡ ok (user, b2)
        pub message_stored :
            Remote.store_id_v2 bolt (some p) fetch md5_hex m.id b2 ≡ ok (message, st.world.ids)

      locally :
          p.lotus ≡ false
          → p.hash_id ≡ true
          → (id : Text) (b : Bolt.Bucket bolt)
          → Remote.store_id_v2 bolt (some p) fetch md5_hex id b ≡ store_id bolt md5_hex true id b
      unfolding Remote.store_id_v2
      locally local hashed id b = rw (local, hashed) refl

      -- The row of the channel still stands when the event is reported.
      channel_held : IsRecorded → IsStored bolt st.world.ids m.channel_id row
      channel_held k =
          let free = hashed_row-IsFree bolt md5_hex in
          let here = locally k.local k.hashed in
          let first = sym (here m.channel_id b0) ∙ k.channel_stored in
          let second = sym (here m.author_id b1) ∙ k.author_stored in
          let third = sym (here m.id b2) ∙ k.message_stored in
          let (held, ok1) =
            store_id_lem bolt md5_hex true m.channel_id b0 row b1 k.plain_channel k.consistent first
              (free m.channel_id b0) in
          let (_, ok2) =
            store_id_lem bolt md5_hex true m.author_id b1 user b2 k.plain_author ok1 second
              (free m.author_id b1) in
          store_id_keeps bolt md5_hex true m.id b2 message st.world.ids k.plain_message ok2 third
            (free m.id b2) m.channel_id row k.plain_channel
            (store_id_keeps bolt md5_hex true m.author_id b1 user b2 k.plain_author ok1 second
              (free m.author_id b1) m.channel_id row k.plain_channel held)

      channel_read :
          IsRecorded
          → Remote.retrieve_row_by_id_v2 bolt (some p) fetch (format_int row) st.world.ids
            ≡ ok m.channel_id
      unfolding Remote.retrieve_row_by_id_v2
      channel_read k =
          rw k.local (stored-IsReadable bolt st.world.ids m.channel_id row (channel_held k)).by_row

      channel_again :
          IsRecorded
          → Remote.store_id_v2 bolt (some p) fetch md5_hex m.channel_id st.world.ids
            ≡ ok (row, st.world.ids)
      channel_again k =
          locally k.local k.hashed m.channel_id st.world.ids
          ∙ store_id_old bolt md5_hex true m.channel_id st.world.ids row (channel_held k)

      module _ (answered : Bool) (drawn : Text → Text) (media : Media) (a : ActionMessage)
          (reply : Reply) (r : Report) (st' : State bolt) (fuel : ℕ) where
        -- An event of a guild's channel, whose channel, author and message have been stored one after the
        -- other and nothing since (plain identifiers, with hashed rows, from a well-formed bucket of the
        -- program's own database), is reported under the number of a group. An action that sends to this
        -- number, without an echo, and whose content can be read, is answered in the first call of the
        -- handler by one message, made of this content, to the channel of the event; here the channel is not
        -- the empty text, Discord takes the message, the counter of the action is not positive once it has
        -- gone down, and neither string mode nor the pair database is set.
        pub event_answered :
            report_group bolt p fetch md5_hex random discord opens delivers bot app seq now row user
                message text m st
              ≡ ok (some r, st')
            → IsRecorded
            → a.params.group_id ≡ some (format_int row)
            → a.echo ≡ none
            → p.idmap_pro ≡ false
            → p.string_ob11 ≡ false
            → m.channel_id == [] ≡ false
            → compose (some p) media a.params.message ≡ ok reply
            → delivers (to_channel m.channel_id reply) ≡ true
            → positive ((get_mapping st.world.counters (id_of a).0 + (two_64 - 1)) % two_64) ≡ false
            → ((bound : Bool) × (r.conversation ≡ group (number row) bound))
              × ((receipt : Receipt) × (v : World bolt) × (handle_send_group_msg bolt
                      (some p)
                      fetch
                      md5_hex
                      opens
                      delivers
                      answered
                      drawn
                      media
                      (suc fuel)
                      a
                      st'.world
                    ≡ some (ok receipt, v))
                  × (v.outbox ≡ st.world.outbox ++ (to_channel m.channel_id reply ∷ [])))
        unfolding Noted
        event_answered reported recorded of_group no_echo single numbered named composed arrives
              last =
            let (conversation, kind, ids, counters, outbox) =
              subst Noted reported report_group-Noted in
            let known : IsKnown bolt (some p) fetch md5_hex opens delivers answered drawn media a
                st'.world (format_int row) m.channel_id =
              record {
                of_group = of_group;
                no_echo = no_echo;
                kind = kind;
                real = rw ids (channel_read recorded);
                row = row;
                stored = rw ids (channel_again recorded);
                single = single;
                numbered = numbered;
                named = named;
                reply = reply;
                composed = composed;
                arrives = arrives;
                last = rw counters last;
              } in
            let (receipt, v, done, sent) =
              group_msg_reaches_channel bolt (some p) fetch md5_hex opens delivers answered drawn
                media a st'.world (format_int row) m.channel_id known fuel in
            (
              conversation,
              (receipt, v, done, sent ∙ ap (λ o. o ++ (to_channel m.channel_id reply ∷ [])) outbox),
            )
