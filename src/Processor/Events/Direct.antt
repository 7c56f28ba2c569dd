-- ===== src/Processor/Events/Direct.antt =====
-- `ProcessChannelDirectMessage`.
use gensokyo_discord.Prelude.{
  ℕ, Bool, false, not, Option, some, [], Text, codes, Outcome, ok, err, panicked, ◌>>=◌,
  if◌then◌else◌,
}
use gensokyo_discord.Strconv.{format_int}
use gensokyo_discord.Config.{Settings, get_idmap_pro, get_native_ob11}
use gensokyo_discord.Http.{Fetch}
use gensokyo_discord.Bolt.{Bolt}
use gensokyo_discord.Idmap.Ids
use gensokyo_discord.Handlers.Types.{Sent}
use gensokyo_discord.Handlers.Revert.{Incoming}
use gensokyo_discord.Processor.Events.{
  number, real, channel, group, private, State, Result, store_or_return, store_or_zero,
  store_pair_or_zero, write_quietly, store_or_exit, command, unless_blocked, role_of, echo_of,
  map_type, map_id, pool, bound_private,
}

module _ (bolt : Bolt) (p : Settings) (fetch : Fetch) (md5_hex : Text → Text) (random : Option ℕ)
    (discord : Bool × Bool) (opens : Text → Bool) (delivers : Sent → Bool) (bot app : Text)
    (seq now : ℕ) where
  -- The rows of the author and of the channel; a row of the author that cannot be stored is 0.
  unfoldable pub direct_rows :
      Incoming
      → State bolt
      → (ℕ
          → ℕ
          → State bolt
          → Result bolt p fetch md5_hex random discord opens delivers bot app seq now)
      → Result bolt p fetch md5_hex random discord opens delivers bot app seq now
  unfolding store_or_zero store_pair_or_zero
  direct_rows m st next =
      (if get_idmap_pro (some p)
        then (store_pair_or_zero bolt p fetch md5_hex random discord opens delivers bot app seq now
              m.channel_id m.author_id st
            >>= λ pair. ok pair.1)
        else ok st)
      >>= λ st1.
          store_or_zero bolt p fetch md5_hex random discord opens delivers bot app seq now
            m.author_id st1
          >>= λ author.
              store_or_return bolt p fetch md5_hex random discord opens delivers bot app seq now
                m.channel_id author.1 λ row st2. simplified row author.0 st2
    where
      quietly : Text → State bolt → Outcome (State bolt)
      quietly id st =
          elim (Ids.simplified_store_id bolt md5_hex id st.world.ids)
            as (λ _. Outcome (State bolt)) [
              | ok r ↦ ok (record st { world = record (st.world) { ids = r.1 } })
              | err e ↦ ok st
              | panicked ↦ panicked
            ]

      simplified :
          ℕ
          → ℕ
          → State bolt
          → Result bolt p fetch md5_hex random discord opens delivers bot app seq now
      simplified row user st =
          if get_idmap_pro (some p)
          then (quietly m.author_id st >>= λ st1.
              quietly m.channel_id st1 >>= λ st2. next row user st2)
          else next row user st

  -- The parts of an event that are left empty for clients that want OneBot's fields only.
  abbrev extended {ℓ} : {A : Type ℓ} → A → A → A
  extended plain value = if get_native_ob11 (some p) then plain else value

  abbrev author_mapped : ℕ → Incoming → State bolt → State bolt
  author_mapped user m st =
      map_id bolt p fetch md5_hex random discord opens delivers bot app seq now user m.id (
        map_type bolt p fetch md5_hex random discord opens delivers bot app seq now seq
          (codes "guild_private")
          (map_id bolt p fetch md5_hex random discord opens delivers bot app seq now seq m.id st))

  unfoldable pub report_private :
      (row user message : ℕ)
      → Text
      → Incoming
      → State bolt
      → Result bolt p fetch md5_hex random discord opens delivers bot app seq now
  unfolding write_quietly
  report_private row user message text m st =
      write_quietly bolt p fetch md5_hex random discord opens delivers bot app seq now
        (format_int user) (codes "type") (codes "guild_private")
        (map_type bolt p fetch md5_hex random discord opens delivers bot app seq now user
          (codes "guild_private") (author_mapped user m st))
      >>= λ st1. ok (
        some (record {
          conversation = private;
          raw_message = text;
          message_id = number message;
          user_id = number user;
          sender_id = user;
          nickname = m.username;
          role = [];
          real_message_type = extended [] (codes "guild_private");
          is_binded_user_id = extended false (
              bound_private bolt p fetch md5_hex random discord opens delivers bot app seq now
                m.author_id user);
          echo = echo_of bolt p fetch md5_hex random discord opens delivers bot app seq now;
        }),
        pool bolt p fetch md5_hex random discord opens delivers bot app seq now (format_int user)
            m.id st1,
      )

  -- Without `global_private_to_channel`: a private message.
  unfoldable pub process_as_private :
      Incoming
      → State bolt
      → Result bolt p fetch md5_hex random discord opens delivers bot app seq now
  unfolding direct_rows report_private command write_quietly store_or_zero
  process_as_private m st = direct_rows m st λ row user st1.
      write_quietly bolt p fetch md5_hex random discord opens delivers bot app seq now m.author_id
        (codes "channel_id") m.channel_id st1
      >>= λ st2.
          write_quietly bolt p fetch md5_hex random discord opens delivers bot app seq now
            (format_int row) (codes "guild_id") m.guild_id st2
          >>= λ st3.
              write_quietly bolt p fetch md5_hex random discord opens delivers bot app seq now
                m.channel_id (codes "guild_id") m.guild_id st3
              >>= λ st4.
                  store_or_exit bolt p fetch md5_hex random discord opens delivers bot app seq now
                    m.id st4
                    λ message st5.
                      unless_blocked bolt p fetch md5_hex random discord opens delivers bot app seq
                        now user m st5
                        λ text st6.
                          command bolt p fetch md5_hex random discord opens delivers bot app seq now
                            text m st6
                          >>= λ st7. report_private row user message text m st7

  unfoldable pub report_private_channel :
      ℕ
      → Text
      → Incoming
      → State bolt
      → Result bolt p fetch md5_hex random discord opens delivers bot app seq now
  unfolding write_quietly
  report_private_channel user text m st =
      write_quietly bolt p fetch md5_hex random discord opens delivers bot app seq now m.channel_id
        (codes "type") (codes "guild_private")
        (map_type bolt p fetch md5_hex random discord opens delivers bot app seq now user
          (codes "guild_private") (author_mapped user m st))
      >>= λ st1.
          write_quietly bolt p fetch md5_hex random discord opens delivers bot app seq now
            (format_int user) (codes "type") (codes "guild_private") st1
          >>= λ st2. ok (
            some (record {
              conversation = channel m.channel_id m.guild_id;
              raw_message = text;
              message_id = real m.id;
              user_id = number user;
              sender_id = user;
              nickname = m.username;
              role =
                  role_of bolt p fetch md5_hex random discord opens delivers bot app seq now user;
              real_message_type = [];
              is_binded_user_id = false;
              echo = echo_of bolt p fetch md5_hex random discord opens delivers bot app seq now;
            }),
            pool bolt p fetch md5_hex random discord opens delivers bot app seq now
                (format_int user) m.id st2,
          )

  unfoldable pub process_private_as_channel :
      Incoming
      → State bolt
      → Result bolt p fetch md5_hex random discord opens delivers bot app seq now
  unfolding report_private_channel command
  process_private_as_channel m st =
      unless_blocked bolt p fetch md5_hex random discord opens delivers bot app seq now 10000 m st
        λ text st1.
          command bolt p fetch md5_hex random discord opens delivers bot app seq now text m st1
          >>= λ st2.
              store_or_return bolt p fetch md5_hex random discord opens delivers bot app seq now
                m.author_id st2 λ user st3. report_private_channel user text m st3

  unfoldable pub report_private_group :
      (row user message : ℕ)
      → Text
      → Incoming
      → State bolt
      → Result bolt p fetch md5_hex random discord opens delivers bot app seq now
  unfolding write_quietly
  report_private_group row user message text m st =
      let st1 =
        map_type bolt p fetch md5_hex random discord opens delivers bot app seq now user
          (codes "guild_private")
          (map_id bolt p fetch md5_hex random discord opens delivers bot app seq now row m.id
            (author_mapped user m st)) in
      write_quietly bolt p fetch md5_hex random discord opens delivers bot app seq now
        (format_int row) (codes "type") (codes "guild_private") st1
      >>= λ st2. ok (
        some (record {
          conversation = group (number row) false;
          raw_message = text;
          message_id = number message;
          user_id = number user;
          sender_id = user;
          nickname = m.username;
          role = role_of bolt p fetch md5_hex random discord opens delivers bot app seq now user;
          real_message_type = extended [] (codes "guild_private");
          is_binded_user_id = extended false (
              bound_private bolt p fetch md5_hex random discord opens delivers bot app seq now
                m.author_id user);
          echo = echo_of bolt p fetch md5_hex random discord opens delivers bot app seq now;
        }),
        pool bolt p fetch md5_hex random discord opens delivers bot app seq now (format_int user)
            m.id
            (map_type bolt p fetch md5_hex random discord opens delivers bot app seq now row
              (codes "guild_private") st2),
      )

  unfoldable pub process_private_as_group :
      Incoming
      → State bolt
      → Result bolt p fetch md5_hex random discord opens delivers bot app seq now
  unfolding direct_rows report_private_group command write_quietly
  process_private_as_group m st = direct_rows m st λ row user st1.
      write_quietly bolt p fetch md5_hex random discord opens delivers bot app seq now
        (format_int row) (codes "user_id") (format_int user) st1
      >>= λ st2.
          write_quietly bolt p fetch md5_hex random discord opens delivers bot app seq now
            (format_int row) (codes "guild_id") m.guild_id st2
          >>= λ st3.
              write_quietly bolt p fetch md5_hex random discord opens delivers bot app seq now
                m.channel_id (codes "guild_id") m.guild_id st3
              >>= λ st4.
                  unless_blocked bolt p fetch md5_hex random discord opens delivers bot app seq now
                    user m st4
                    λ text st5.
                      command bolt p fetch md5_hex random discord opens delivers bot app seq now
                        text m st5
                      >>= λ st6.
                          store_or_return bolt p fetch md5_hex random discord opens delivers bot app
                            seq now m.id st6
                            λ message st7. report_private_group row user message text m st7

  unfoldable pub process_channel_direct_message :
      Incoming
      → State bolt
      → Result bolt p fetch md5_hex random discord opens delivers bot app seq now
  unfolding process_as_private process_private_as_channel process_private_as_group
  process_channel_direct_message m st =
      if not p.global_private_to_channel
      then process_as_private m st
      else if not p.global_channel_to_group
      then process_private_as_channel m st
      else process_private_as_group m st
