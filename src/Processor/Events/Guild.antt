-- ===== src/Processor/Events/Guild.antt =====
-- `ProcessGuildNormalMessage`.
use gensokyo_discord.Prelude.{
  ℕ, Bool, false, Option, some, [], Text, codes, ok, ◌>>=◌, if◌then◌else◌,
}
use gensokyo_discord.Strconv.{format_int}
use gensokyo_discord.Config.{Settings, get_app_id_str, get_idmap_pro, get_string_ob11}
use gensokyo_discord.Http.{Fetch}
use gensokyo_discord.Bolt.{Bolt}
use gensokyo_discord.Echo.{add_msg_id_v2}
use gensokyo_discord.Idmap.RowId.{check_value}
use gensokyo_discord.Handlers.Types.{Sent}
use gensokyo_discord.Handlers.Revert.{Incoming}
use gensokyo_discord.Processor.Events.{
  number, real, channel, group, State, Result, store_or_return, store_or_zero, store_pair_or_zero,
  write_quietly, command, unless_blocked, role_of, echo_of, map_type, map_id, pool,
}

module _ (bolt : Bolt) (p : Settings) (fetch : Fetch) (md5_hex : Text → Text) (random : Option ℕ)
    (discord : Bool × Bool) (opens : Text → Bool) (delivers : Sent → Bool) (bot app : Text)
    (seq now : ℕ) where
  -- Both directions of the echo, for an event that is reported under the number `n`.
  abbrev pub mapped : Text → ℕ → Incoming → State bolt → State bolt
  mapped kind n m st =
      map_id bolt p fetch md5_hex random discord opens delivers bot app seq now n m.id (
        map_type bolt p fetch md5_hex random discord opens delivers bot app seq now seq kind
          (map_id bolt p fetch md5_hex random discord opens delivers bot app seq now seq m.id st))

  -- Without `global_channel_to_group`: an event of a channel.
  unfoldable pub report_channel :
      ℕ
      → Text
      → Incoming
      → State bolt
      → Result bolt p fetch md5_hex random discord opens delivers bot app seq now
  unfolding write_quietly
  report_channel user text m st =
      let st1 =
        map_type bolt p fetch md5_hex random discord opens delivers bot app seq now user
          (codes "guild") (mapped (codes "guild") user m st) in
      write_quietly bolt p fetch md5_hex random discord opens delivers bot app seq now m.channel_id
        (codes "type") (codes "guild") st1
      >>= λ st2. ok (
        some (record {
          conversation = channel m.channel_id m.guild_id;
          raw_message = text;
          message_id = real m.id;
          user_id = number user;
          sender_id = user;
          nickname = m.nick;
          role = role_of bolt p fetch md5_hex random discord opens delivers bot app seq now user;
          real_message_type = [];
          is_binded_user_id = false;
          echo = echo_of bolt p fetch md5_hex random discord opens delivers bot app seq now;
        }),
        pool bolt p fetch md5_hex random discord opens delivers bot app seq now m.channel_id m.id
            st2,
      )

  unfoldable pub process_as_channel :
      Incoming
      → State bolt
      → Result bolt p fetch md5_hex random discord opens delivers bot app seq now
  unfolding report_channel command
  process_as_channel m st =
      unless_blocked bolt p fetch md5_hex random discord opens delivers bot app seq now 10000 m st
        λ text st1.
          command bolt p fetch md5_hex random discord opens delivers bot app seq now text m st1
          >>= λ st2.
              store_or_return bolt p fetch md5_hex random discord opens delivers bot app seq now
                m.author_id st2 λ user st3. report_channel user text m st3

  -- The rows of the channel and of the author.
  unfoldable pub channel_rows :
      Incoming
      → State bolt
      → (ℕ
          → ℕ
          → State bolt
          → Result bolt p fetch md5_hex random discord opens delivers bot app seq now)
      → Result bolt p fetch md5_hex random discord opens delivers bot app seq now
  unfolding store_or_zero store_pair_or_zero
  channel_rows m st next =
      if get_idmap_pro (some p)
      then (store_pair_or_zero bolt p fetch md5_hex random discord opens delivers bot app seq now
            m.channel_id m.author_id st
          >>= λ pair.
              store_or_zero bolt p fetch md5_hex random discord opens delivers bot app seq now
                m.channel_id pair.1
              >>= λ first.
                  store_or_zero bolt p fetch md5_hex random discord opens delivers bot app seq now
                    m.author_id first.1
                  >>= λ second. next (pair.0).0 (pair.0).1 second.1)
      else store_or_return bolt p fetch md5_hex random discord opens delivers bot app seq now
          m.channel_id st
          λ row st1.
            store_or_return bolt p fetch md5_hex random discord opens delivers bot app seq now
              m.author_id st1 λ user st2. next row user st2

  -- The event of a group, with numbers.
  unfoldable pub report_group :
      (row user message : ℕ)
      → Text
      → Incoming
      → State bolt
      → Result bolt p fetch md5_hex random discord opens delivers bot app seq now
  report_group row user message text m st =
      let st1 = mapped (codes "guild") row m st in
      let st2 : State bolt = record st1 {
        world = record (st1.world) {
          types = add_msg_id_v2 (get_app_id_str (some p)) row user m.id st1.world.types;
        };
      } in
      write_quietly bolt p fetch md5_hex random discord opens delivers bot app seq now
        (format_int row) (codes "type") (codes "guild") st2
      >>= λ st3. ok (
        some (record {
          conversation = group (number row) (check_value md5_hex m.channel_id row);
          raw_message = text;
          message_id = number message;
          user_id = number user;
          sender_id = user;
          nickname = m.nick;
          role = role_of bolt p fetch md5_hex random discord opens delivers bot app seq now user;
          real_message_type = codes "guild";
          is_binded_user_id = check_value md5_hex m.author_id user;
          echo = echo_of bolt p fetch md5_hex random discord opens delivers bot app seq now;
        }),
        pool bolt p fetch md5_hex random discord opens delivers bot app seq now (format_int row)
            m.id
            (map_type bolt p fetch md5_hex random discord opens delivers bot app seq now row
              (codes "guild") st3),
      )

  -- The event of a group, with the real identifiers.
  unfoldable pub report_group_real :
      (row user : ℕ)
      → Text
      → Incoming
      → State bolt
      → Result bolt p fetch md5_hex random discord opens delivers bot app seq now
  unfolding write_quietly
  report_group_real row user text m st =
      write_quietly bolt p fetch md5_hex random discord opens delivers bot app seq now m.channel_id
        (codes "type") (codes "guild") (mapped (codes "guild") row m st)
      >>= λ st1. ok (
        some (record {
          conversation = group (real m.channel_id) (check_value md5_hex m.channel_id row);
          raw_message = text;
          message_id = real m.id;
          user_id = real m.author_id;
          sender_id = user;
          nickname = m.nick;
          role = role_of bolt p fetch md5_hex random discord opens delivers bot app seq now user;
          real_message_type = codes "guild";
          is_binded_user_id = check_value md5_hex m.author_id user;
          echo = echo_of bolt p fetch md5_hex random discord opens delivers bot app seq now;
        }),
        pool bolt p fetch md5_hex random discord opens delivers bot app seq now m.channel_id m.id
            st1,
      )

  unfoldable pub process_as_group :
      Incoming
      → State bolt
      → Result bolt p fetch md5_hex random discord opens delivers bot app seq now
  unfolding channel_rows report_group report_group_real command write_quietly
  process_as_group m st = channel_rows m st λ row user st1.
      write_quietly bolt p fetch md5_hex random discord opens delivers bot app seq now
        (format_int row) (codes "guild_id") m.guild_id st1
      >>= λ st2.
          unless_blocked bolt p fetch md5_hex random discord opens delivers bot app seq now row m
            st2
            λ text st3.
              command bolt p fetch md5_hex random discord opens delivers bot app seq now text m st3
              >>= λ st4.
                  store_or_return bolt p fetch md5_hex random discord opens delivers bot app seq now
                    m.id st4
                    λ message st5.
                      if get_string_ob11 (some p)
                      then report_group_real row user text m st5
                      else report_group row user message text m st5

  unfoldable pub process_guild_normal_message :
      Incoming
      → State bolt
      → Result bolt p fetch md5_hex random discord opens delivers bot app seq now
  unfolding process_as_group process_as_channel
  process_guild_normal_message m st =
      if p.global_channel_to_group then process_as_group m st else process_as_channel m st
