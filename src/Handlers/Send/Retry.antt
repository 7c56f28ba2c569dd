-- ===== src/Handlers/Send/Retry.antt =====
-- `HandleSendGroupMsg`, `HandleSendMsg` and `HandleSendPrivateMsg`: an action whose conversation is of an
-- unknown type is tried again under one type after the other. The handlers call themselves, and nothing
-- bounds the calls but a counter that they reset: they are run on fuel here, and `none` is a run that
-- needs more. The delay between two calls is left out.
pub mod Known
pub mod Returns
pub mod Loops
use gensokyo_discord.Prelude.{
  ℕ, zero, suc, ◌+◌, ◌-◌, ◌%◌, Bool, true, false, not, ◌&&◌, ◌||◌, Option, none, some, List, [],
  ◌∷◌, ◌++◌, Text, ◌==◌, codes, Outcome, ok, err, panicked, Error, eqb, ltb, if◌then◌else◌, ◌>>=◌,
}
use gensokyo_discord.Strconv.{two_63, two_64}
use gensokyo_discord.Config.{Settings, get_app_id_str, get_idmap_pro, get_string_ob11}
use gensokyo_discord.Http.{Fetch}
use gensokyo_discord.Bolt.{Bolt}
use gensokyo_discord.Idmap.Remote
use gensokyo_discord.Idmap.Remote.Config as Remote_config
use gensokyo_discord.Echo.{add_msg_type, get_mapping, add_mapping}
use gensokyo_discord.Callapi.{ActionMessage, ParamsContent, Value}
use gensokyo_discord.Handlers.Types.{
  World, Sent, Media, or_empty, or_else, convert_to_int64, type_of_echo,
  get_message_type_by_groupid, get_message_type_by_userid, get_message_type_by_groupid_v2,
  get_message_type_by_userid_v2,
}
use gensokyo_discord.Handlers.Send.Direct.{
  Receipt, answer_only, find_type, handle_send_guild_channel_msg,
  handle_send_guild_channel_private_msg,
}

-- a test `> 0` of an int
abbrev pub positive : ℕ → Bool
positive c = not (eqb c 0) && ltb c two_63

unfoldable pub id_of : ActionMessage → ℕ × Bool
unfolding convert_to_int64
id_of m =
    if is_empty m.params.user_id
    then (if is_empty m.params.group_id then (0, true) else convert_to_int64 m.params.group_id)
    else convert_to_int64 m.params.user_id
  where
    is_empty : Option Text → Bool
    is_empty none = false
    is_empty (some t) = t == []

-- `tryMessageTypes` at an index
unfoldable pub try_message_types : ℕ → Outcome Text
try_message_types zero = ok (codes "group")
try_message_types (suc zero) = ok (codes "guild")
try_message_types (suc (suc zero)) = ok (codes "guild_private")
try_message_types (suc (suc (suc n))) = panicked

module _ (bolt : Bolt) (s : Option Settings) where
  abbrev pub Result : Type 0
  Result = Outcome Receipt × World bolt

  -- What the `switch` on the type leaves: the message, the answer, and whether the handler goes on.
  abbrev pub Dispatched : Type 0
  Dispatched = Outcome (ActionMessage × Receipt × Bool) × World bolt

  abbrev pub set_type : ℕ → Text → World bolt → World bolt
  set_type id kind w = record w { types = add_msg_type (get_app_id_str s) id kind w.types }

  abbrev pub set_counter : ℕ → ℕ → World bolt → World bolt
  set_counter id value w = record w { counters = add_mapping id value w.counters }

  -- The counter starts at 4, and the first type that is tried is group_private.
  unfoldable pub begin : ℕ → World bolt → World bolt
  unfolding add_msg_type add_mapping
  begin id w = set_type id (codes "group_private") (set_counter id 4 w)

  -- A counter that is used up takes the type back; the counter goes down by one.
  unfoldable pub count_down : ℕ → World bolt → World bolt
  unfolding add_msg_type add_mapping get_mapping
  count_down id w =
      let cleared = if positive (get_mapping w.counters id) then w else set_type id [] w in
      set_counter id ((get_mapping w.counters id + (two_64 - 1)) % two_64) cleared

  -- The three handlers differ in how they find the type, in the `switch`, and in which answers of their
  -- own calls they keep.
  module _ (find : ActionMessage → World bolt → Outcome Text)
      (switch : Text → Receipt → ActionMessage → World bolt → Dispatched)
      (keep_first keep_last : Bool) where
    abbrev pub keep : Bool → Outcome Receipt → Receipt → Outcome Receipt
    keep kept (ok r) before = ok (if kept then r else before)
    keep kept (err e) before = ok (if kept then none else before)
    keep kept panicked before = panicked

    abbrev pub Runs : Type 0
    Runs = ActionMessage → World bolt → Option Result

    -- The last part: the next type, where the counter is positive.
    unfoldable pub next_type : Runs → ℕ → Receipt → ActionMessage → World bolt → Option Result
    unfolding get_mapping add_msg_type try_message_types
    next_type again id reply m w =
        if positive (get_mapping w.counters id)
        then elim (try_message_types (get_mapping w.counters id - 1)) as (λ _. Option Result) [
          | err e ↦ some (err e, w)
          | panicked ↦ some (panicked, w)
          | ok kind ↦ elim (again m (set_type id kind w)) as (λ _. Option Result) [
            | none ↦ none
            | some last ↦ some (keep keep_last last.0 reply, last.1)
          ]
        ]
        else some (ok reply, w)

    -- Behind the `switch`.
    unfoldable pub after_switch : Runs → ℕ → Dispatched → Option Result
    unfolding next_type count_down
    after_switch again id (ok (m, reply, true), w) = next_type again id reply m (count_down id w)
    after_switch again id (ok (m, reply, false), w) = some (ok none, w)
    after_switch again id (err e, w) = some (err e, w)
    after_switch again id (panicked, w) = some (panicked, w)

    unfoldable pub after_first :
        Runs → Text → ℕ → Receipt → ActionMessage → World bolt → Option Result
    unfolding after_switch
    after_first again kind id before m w = after_switch again id (switch kind before m w)

    unfoldable pub first_then : Runs → Text → ActionMessage → World bolt → Option Result
    unfolding after_first begin id_of
    first_then again kind m w =
        if kind == [] && (id_of m).1
        then elim (again m (begin (id_of m).0 w)) as (λ _. Option Result) [
          | none ↦ none
          | some first ↦ elim (keep keep_first first.0 none) as (λ _. Option Result) [
            | ok before ↦ after_first again kind (id_of m).0 before m first.1
            | err e ↦ some (err e, first.1)
            | panicked ↦ some (panicked, first.1)
          ]
        ]
        else after_first again kind (id_of m).0 none m w

    unfoldable pub attempt : ℕ → Runs
    unfolding first_then
    attempt zero m w = none
    attempt (suc fuel) m w = elim (find m w) as (λ _. Option Result) [
      | ok kind ↦ first_then (attempt fuel) kind m w
      | err e ↦ some (err e, w)
      | panicked ↦ some (panicked, w)
    ]

module _ (bolt : Bolt) (s : Option Settings) (fetch : Fetch) (md5_hex : Text → Text)
    (opens : Text → Bool) (delivers : Sent → Bool) (answered : Bool) (drawn : Text → Text)
    (media : Media) where
  abbrev pub with_channel : Text → ActionMessage → ActionMessage
  with_channel channel m = record m { params = record (m.params) { channel_id = channel } }

  abbrev pub goes_on : ActionMessage → Result bolt s → Dispatched bolt s
  goes_on m (ok r, w) = (ok (m, r, true), w)
  goes_on m (err e, w) = (ok (m, none, true), w)
  goes_on m (panicked, w) = (panicked, w)

  abbrev first_of : Outcome (Text × Text) → Outcome Text
  first_of pair = pair >>= λ p. ok p.0

  abbrev by_pair : Text → Option Text → World bolt → Outcome Text
  by_pair group none w = ok []
  by_pair group (some user) w =
      if get_idmap_pro s
      then or_empty (first_of (Remote.retrieve_row_by_id_v2_pro bolt s fetch group user w.ids))
      else ok []

  -- The real channel of a group, for `HandleSendGroupMsg`.
  unfoldable pub group_channel : Text → Option Text → World bolt → Outcome Text
  group_channel group user w = by_pair group user w >>= λ channel.
      if get_string_ob11 s
      then ok group
      else if channel == []
      then or_empty (Remote.retrieve_row_by_id_v2 bolt s fetch group w.ids)
      else ok channel

  -- The same for `HandleSendMsg`.
  unfoldable pub msg_channel : Text → Option Text → World bolt → Outcome Text
  msg_channel group user w =
      if get_idmap_pro s
      then elim user as (λ _. Outcome Text) [
        | none ↦ panicked
        | some u ↦ or_empty (first_of (Remote.retrieve_row_by_id_v2_pro bolt s fetch group u w.ids))
      ]
      else or_empty (Remote.retrieve_row_by_id_v2 bolt s fetch group w.ids)

  -- The branch `guild` of both.
  unfoldable pub switch_guild :
      (Text → Option Text → World bolt → Outcome Text)
      → ActionMessage
      → World bolt
      → Dispatched bolt s
  unfolding handle_send_guild_channel_msg
  switch_guild channel_of m w = elim m.params.group_id as (λ _. Dispatched bolt s) [
    | none ↦ (panicked, w)
    | some group ↦ elim (channel_of group m.params.user_id w) as (λ _. Dispatched bolt s) [
      | ok channel ↦ goes_on (with_channel channel m) (
          handle_send_guild_channel_msg bolt s fetch md5_hex opens delivers answered drawn media
            (with_channel channel m) w)
      | err e ↦ (err e, w)
      | panicked ↦ (panicked, w)
    ]
  ]

  -- The real private channel in `HandleSendGroupMsg`, which is only used to find its guild.
  unfoldable pub private_channel : Text → Text → World bolt → Outcome Text
  private_channel group user w = or_empty (
      if not (user == []) && get_idmap_pro s
      then first_of (Remote.retrieve_row_by_id_v2_pro bolt s fetch group user w.ids)
      else Remote.retrieve_row_by_id_v2 bolt s fetch group w.ids)

  -- The branch `guild_private` of `HandleSendGroupMsg`: without a user, and without a stored guild, the
  -- handler returns at once.
  unfoldable pub switch_group_private : ActionMessage → World bolt → Dispatched bolt s
  unfolding private_channel handle_send_guild_channel_private_msg
  switch_group_private m w = elim m.params.group_id as (λ _. Dispatched bolt s) [
    | none ↦ (panicked, w)
    | some group ↦ elim m.params.user_id as (λ _. Dispatched bolt s) [
      | none ↦ (ok (m, none, false), w)
      | some user ↦
          elim (private_channel group user w >>= λ channel.
          Remote_config.read_config_v2 bolt s fetch channel (codes "guild_id") w.settings)
            as (λ _. Dispatched bolt s) [
              | err e ↦ (ok (m, none, false), w)
              | panicked ↦ (panicked, w)
              | ok guild ↦ goes_on (with_channel group m) (
                  handle_send_guild_channel_private_msg bolt s fetch md5_hex opens delivers answered
                    drawn media (with_channel group m) w)
            ]
    ]
  ]

  unfoldable pub switch_group : Text → Receipt → ActionMessage → World bolt → Dispatched bolt s
  unfolding switch_guild group_channel switch_group_private
  switch_group kind before m w =
      if kind == codes "guild"
      then switch_guild group_channel m w
      else if kind == codes "guild_private"
      then switch_group_private m w
      else (ok (m, before, true), w)

  unfoldable pub switch_private : ActionMessage → World bolt → Dispatched bolt s
  unfolding handle_send_guild_channel_private_msg
  switch_private m w = goes_on m (
      handle_send_guild_channel_private_msg bolt s fetch md5_hex opens delivers answered drawn media
        m w)

  unfoldable pub switch_msg : Text → Receipt → ActionMessage → World bolt → Dispatched bolt s
  unfolding switch_guild msg_channel switch_private
  switch_msg kind before m w =
      if kind == codes "guild"
      then switch_guild msg_channel m w
      else if kind == codes "guild_private"
      then switch_private m w
      else (ok (m, before, true), w)

  unfoldable pub switch_private_msg :
      Text → Receipt → ActionMessage → World bolt → Dispatched bolt s
  unfolding switch_private
  switch_private_msg kind before m w =
      if kind == codes "guild_private" then switch_private m w else (ok (m, before, true), w)

  -- `HandleSendPrivateMsg` asks for the user before the group.
  unfoldable pub find_private_type : ActionMessage → World bolt → Outcome Text
  unfolding type_of_echo get_message_type_by_groupid get_message_type_by_userid
  find_private_type m w = or_else (ok (type_of_echo m.echo w.types)) (
      or_else (ok (get_message_type_by_userid (get_app_id_str s) m.params.user_id w.types)) (
        or_else (ok (get_message_type_by_groupid (get_app_id_str s) m.params.group_id w.types)) (
          or_else (get_message_type_by_userid_v2 bolt s fetch m.params.user_id w)
            (get_message_type_by_groupid_v2 bolt s fetch m.params.group_id w))))

  unfoldable pub handle_send_group_msg : ℕ → ActionMessage → World bolt → Option (Result bolt s)
  unfolding attempt find_type switch_group
  handle_send_group_msg =
      attempt bolt s (find_type bolt s fetch md5_hex opens delivers answered drawn media)
        switch_group true false

  unfoldable pub handle_send_msg : ℕ → ActionMessage → World bolt → Option (Result bolt s)
  unfolding attempt find_type switch_msg
  handle_send_msg =
      attempt bolt s (find_type bolt s fetch md5_hex opens delivers answered drawn media) switch_msg
        true true

  unfoldable pub handle_send_private_msg : ℕ → ActionMessage → World bolt → Option (Result bolt s)
  unfolding attempt find_private_type switch_private_msg
  handle_send_private_msg = attempt bolt s find_private_type switch_private_msg false false
