-- ===== src/Processor/Events.antt =====
-- `ProcessGuildNormalMessage` and `ProcessChannelDirectMessage`: a Discord message becomes a OneBot event.
-- The event is what is handed to `BroadcastMessageToAll` (Broadcast), without its constant fields and, in
-- array mode, without the segments. `seq` is discordgo's counter of messages, `now` the time of arrival.
pub mod Guild
pub mod Direct
pub mod Answered
use gensokyo_discord.Prelude.{
  ℕ, Bool, true, false, not, ◌&&◌, Option, none, some, List, [], ◌∷◌, ◌++◌, Text, ◌==◌, codes,
  Outcome, ok, err, panicked, ◌>>=◌, if◌then◌else◌,
}
use gensokyo_discord.Strconv.{format_int}
use gensokyo_discord.Config.{
  Settings, get_app_id_str, get_master_id, get_two_way_echo, get_hash_id_value,
}
use gensokyo_discord.Http.{Fetch}
use gensokyo_discord.Bolt.{Bolt}
use gensokyo_discord.Echo.{EchoMapping, Records, add_msg_type, add_msg_id, add_lazy_message_id}
use gensokyo_discord.Idmap.Remote
use gensokyo_discord.Idmap.Remote.Config as Remote_config
use gensokyo_discord.Idmap.RowId.{check_value, check_value_v2}
use gensokyo_discord.Handlers.Types.{World, Sent}
use gensokyo_discord.Handlers.Revert.{Incoming, revert_transformed_text}
use gensokyo_discord.Handlers.Revert.Mentions.{trim_space, without_codes}
use gensokyo_discord.Processor.Commands.{contains}
use gensokyo_discord.Processor.Bind.{Bot, Notice}
use gensokyo_discord.Processor.Framework.{Message, handle_framework_command}

-- Numbers are reported as they are, or real identifiers in string mode.
pub data Ident : Type 0 where
  number : ℕ → Ident
  real : Text → Ident

-- Where the event says that the message was sent; a group with whether its number was bound.
pub data Conversation : Type 0 where
  channel : (channel_id guild_id : Text) → Conversation
  group : Ident → Bool → Conversation
  private : Conversation

-- `OnebotChannelMessage`, `OnebotGroupMessage`, `OnebotGroupMessageS` and `OnebotPrivateMessage`.
pub record Report : Type 0 where
  pub conversation : Conversation
  pub raw_message : Text
  pub message_id : Ident
  pub user_id : Ident
  pub sender_id : ℕ
  pub nickname : Text
  pub role : Text
  pub real_message_type : Text
  pub is_binded_user_id : Bool
  pub echo : Text

-- What the two functions read and change besides the clients.
pub record State (bolt : Bolt) : Type 0 where
  pub world : World bolt
  pub commands : List Text
  pub notices : List Notice
  pub records : Records

module _ (bolt : Bolt) (p : Settings) (fetch : Fetch) (md5_hex : Text → Text) (random : Option ℕ)
    (discord : Bool × Bool) (opens : Text → Bool) (delivers : Sent → Bool) (bot app : Text)
    (seq now : ℕ) where
  abbrev pub s : Option Settings
  s = some p

  abbrev pub Result : Type 0
  Result = Outcome (Option Report × State bolt)

  abbrev pub unreported : State bolt → Result
  unreported st = ok (none, st)

  abbrev with_ids : State bolt → Bolt.Bucket bolt → State bolt
  with_ids st ids = record st { world = record (st.world) { ids = ids } }

  -- A store whose failure ends the function.
  abbrev pub store_or_return : Text → State bolt → (ℕ → State bolt → Result) → Result
  store_or_return id st next =
      elim (Remote.store_id_v2 bolt s fetch md5_hex id st.world.ids) as (λ _. Result) [
        | ok r ↦ next r.0 (with_ids st r.1)
        | err e ↦ unreported st
        | panicked ↦ panicked
      ]

  -- A store whose failure ends the program, by Go's own `log.Fatalf`.
  abbrev pub store_or_exit : Text → State bolt → (ℕ → State bolt → Result) → Result
  store_or_exit id st next =
      elim (Remote.store_id_v2 bolt s fetch md5_hex id st.world.ids) as (λ _. Result) [
        | ok r ↦ next r.0 (with_ids st r.1)
        | err e ↦ panicked
        | panicked ↦ panicked
      ]

  -- A store whose failure is only logged, also by `Fatalf`: the number is then 0.
  unfoldable pub store_or_zero : Text → State bolt → Outcome (ℕ × State bolt)
  store_or_zero id st =
      elim (Remote.store_id_v2 bolt s fetch md5_hex id st.world.ids)
        as (λ _. Outcome (ℕ × State bolt)) [
          | ok r ↦ ok (r.0, with_ids st r.1)
          | err e ↦ ok (0, st)
          | panicked ↦ panicked
        ]

  unfoldable pub store_pair_or_zero : Text → Text → State bolt → Outcome ((ℕ × ℕ) × State bolt)
  store_pair_or_zero id sub st =
      elim (Remote.store_id_v2_pro bolt s fetch md5_hex id sub st.world.ids)
        as (λ _. Outcome ((ℕ × ℕ) × State bolt)) [
          | ok r ↦ ok (r.0, with_ids st r.1)
          | err e ↦ ok ((0, 0), st)
          | panicked ↦ panicked
        ]

  -- `idmap.WriteConfigv2` as a statement.
  unfoldable pub write_quietly : (section name value : Text) → State bolt → Outcome (State bolt)
  write_quietly section name value st =
      elim (Remote_config.write_config_v2 bolt s fetch section name value st.world.settings)
        as (λ _. Outcome (State bolt)) [
          | ok settings ↦ ok (record st { world = record (st.world) { settings = settings } })
          | err e ↦ ok st
          | panicked ↦ panicked
        ]

  unfoldable pub revert : ℕ → Incoming → State bolt → Outcome (Text × State bolt)
  unfolding revert_transformed_text
  revert vgid m st =
      revert_transformed_text bolt s fetch md5_hex opens delivers bot app st.commands vgid m
        st.world
      >>= λ r. ok (r.0, record st { world = r.1 })

  -- The framework's commands; their error is dropped.
  unfoldable pub command : Text → Incoming → State bolt → Outcome (State bolt)
  unfolding handle_framework_command without_codes trim_space
  command text m st =
      let before : Bot bolt = record {
        rows = st.world.ids;
        commands = st.commands;
        notices = st.notices;
      } in
      let message : Message = record {
        cleaned = trim_space (without_codes 0 text);
        real_user = m.author_id;
        real_group = m.channel_id;
        is_guild = m.is_guild;
      } in
      let done = handle_framework_command bolt s fetch random discord message before in
      let after : State bolt = record st {
        world = record (st.world) { ids = (done.1).rows };
        commands = (done.1).commands;
        notices = (done.1).notices;
      } in
      elim done.0 as (λ _. Outcome (State bolt)) [
        | ok u ↦ ok after
        | err e ↦ ok after
        | panicked ↦ panicked
      ]

  -- A message that the filters left empty is not processed.
  abbrev pub unless_blocked : ℕ → Incoming → State bolt → (Text → State bolt → Result) → Result
  unless_blocked vgid m st next =
      revert vgid m st >>= λ r. (if r.0 == [] then unreported r.1 else next r.0 r.1)

  abbrev pub role_of : ℕ → Text
  role_of user =
      if contains (get_master_id s) (format_int user) then codes "owner" else codes "member"

  abbrev pub echo_of : Text
  echo_of = if get_two_way_echo s then get_app_id_str s ++ (b'_' ∷ format_int seq) else []

  -- Entries of the maps of echo, and of the pool of messages.
  abbrev pub map_type : ℕ → Text → State bolt → State bolt
  map_type n kind st = record st {
    world = record (st.world) { types = add_msg_type (get_app_id_str s) n kind st.world.types };
  }

  abbrev pub map_id : ℕ → Text → State bolt → State bolt
  map_id n id st = record st {
    world = record (st.world) { types = add_msg_id (get_app_id_str s) n id st.world.types };
  }

  abbrev pub pool : Text → Text → State bolt → State bolt
  pool key id st = record st { records = add_lazy_message_id key id now st.records }

  abbrev pub bound_private : Text → ℕ → Bool
  bound_private id user =
      if get_hash_id_value s then check_value md5_hex id user else check_value_v2 user
