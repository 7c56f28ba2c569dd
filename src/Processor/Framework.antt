-- ===== src/Processor/Framework.antt =====
-- `HandleFrameworkCommand` of Processor/Processor.go, from the cleaned message on: the argument is the
-- text without its CQ codes and the space around it. `discord` says whether each of the two calls of
-- the Discord session that the unlock command makes succeeds.
pub mod Laws
use gensokyo_discord.Prelude.{
  ℕ, Bool, true, false, not, ◌&&◌, ◌||◌, Option, none, some, List, [], ◌∷◌, ◌++◌, Text, ◌==◌, codes,
  has_prefix, Outcome, ok, err, panicked, Error, send_failed, ◌>>=◌, fields, length, eqb, ltb,
  if◌then◌else◌,
}
use gensokyo_discord.Config.{
  Settings, get_master_id, get_idmap_pro, get_bind_prefix, get_me_prefix, get_unlock_prefix,
}
use gensokyo_discord.Http.{Fetch}
use gensokyo_discord.Bolt.{Bolt}
use gensokyo_discord.Idmap.Remote
use gensokyo_discord.Processor.Commands.{contains, handle_no_permission, is_valid_temporary_command}
use gensokyo_discord.Processor.Bind.{
  Bot, Notice, failed, bound, status, pair_status, no_permission, Done, say, perform_bind_operation,
  perform_bind_operation_v2,
}

-- `real_user` and `real_group` are the author and the channel of the message; `is_guild` is the test
-- of the message type.
pub record Message : Type 0 where
  pub cleaned : Text
  pub real_user : Text
  pub real_group : Text
  pub is_guild : Bool

-- The pair that a lookup returns and whether it failed; Go's pair is empty beside an error.
abbrev pub found : Outcome (Text × Text) → Outcome ((Text × Text) × Option Error)
found (ok values) = ok (values, none)
found (err e) = ok (([], []), some e)
found panicked = panicked

module _ (bolt : Bolt) (s : Option Settings) (fetch : Fetch) (random : Option ℕ)
    (discord : Bool × Bool) where
  -- The lookups at the start: the virtual value of the user, the pair with `idmap_pro`, and the error of
  -- the last of them.
  unfoldable pub lookups :
      Message → Bot bolt → Outcome ((Text × Text) × (Text × Text) × Option Error)
  lookups m bot = do
    user ← found (Remote.retrieve_virtual_value_v2 bolt s fetch m.real_user bot.rows)
    if get_idmap_pro s
        then (do
          pair ←
              found (
                Remote.retrieve_virtual_value_v2_pro bolt s fetch m.real_group m.real_user bot.rows)
          ok (user.0, pair.0, pair.1))
        else ok (user.0, ([], []), user.1)

  -- The user is listed by the real or the virtual value, or nobody is.
  unfoldable pub has_permission : Text → Text → Bool
  unfolding contains
  has_permission real virtual =
      let masters = get_master_id s in
      if eqb (length masters) 0 then true else contains masters real || contains masters virtual

  unfoldable pub bind : Message → Text → Bot bolt → Done bolt s fetch
  bind m group bot =
      let result =
        if get_idmap_pro s
        then perform_bind_operation_v2 bolt s fetch m.cleaned group bot
        else perform_bind_operation bolt s fetch m.cleaned bot in
      -- an error is only logged
      elim result.0 as (λ _. Done bolt s fetch) [
        | ok u ↦ (ok tt, result.1)
        | err e ↦ (ok tt, result.1)
        | panicked ↦ (panicked, result.1)
      ]

  unfoldable pub show_me :
      Message
      → (now new : Text) → (pair : Text × Text) → Option Error
      → Bot bolt
      → Done bolt s fetch
  show_me m now new pair (some e) bot = (err e, say bolt s fetch (failed e) bot)
  show_me m now new pair none bot = (
    ok tt,
    say bolt s fetch
        (if get_idmap_pro s
          then pair_status (m.real_user, pair.1) (m.real_group, pair.0)
          else status now new)
        bot,
  )

  -- The first field of the message against the one-time commands.
  unfoldable pub use_command : List Text → List Text → Bool × List Text
  unfolding is_valid_temporary_command
  use_command [] commands = (false, commands)
  use_command (first ∷ rest) commands = is_valid_temporary_command first commands

  -- The part behind the unlock and me commands.
  unfoldable pub handle_bind : Message → (new group : Text) → Bot bolt → Done bolt s fetch
  unfolding use_command fields handle_no_permission
  handle_bind m new group bot =
      let (valid, commands) = use_command (fields m.cleaned) bot.commands in
      let used : Bot bolt = record bot { commands = commands } in
      if valid
      then bind m group used
      else if has_permission m.real_user new && has_prefix m.cleaned (get_bind_prefix s)
      then bind m group used
      else if has_prefix m.cleaned (get_bind_prefix s)
      then (
        ok tt,
        say bolt s fetch no_permission
            (record used { commands = (handle_no_permission random commands).1 }),
      )
      else (ok tt, used)

  -- Everything behind the text t.
  unfoldable pub handle_rest : Message → Bot bolt → Done bolt s fetch
  handle_rest m bot = elim (lookups m bot) as (λ _. Done bolt s fetch) [
    | err e ↦ (err e, bot)
    | panicked ↦ (panicked, bot)
    | ok found ↦
        (let ((now, new), (group, user), failure) = found in
          if m.is_guild
            && has_prefix m.cleaned (get_unlock_prefix s)
            && not (discord.0 && discord.1)
          then (err send_failed, bot)
          else if has_prefix m.cleaned (get_me_prefix s)
          then show_me m now new (group, user) failure bot
          else handle_bind m new group bot)
  ]

  unfoldable pub handle_framework_command : Message → Bot bolt → Done bolt s fetch
  unfolding handle_no_permission
  handle_framework_command m bot = handle_rest m (
      if m.cleaned == codes "t"
      then record bot { commands = (handle_no_permission random bot.commands).1 }
      else bot)
