-- ===== src/Processor/Bind.antt =====
-- The bind command of Processor/Processor.go: `performBindOperation`, `performBindOperationV2` and
-- `parseOrDefault`. What the user is told is a notice; `SendMessage`, which delivers it, is not modelled.
pub mod Laws
pub mod Partial
use gensokyo_discord.Prelude.{
  ℕ, zero, suc, Bool, true, false, not, ◌&&◌, ◌||◌, Option, none, some, List, [], ◌∷◌, ◌++◌, Text,
  Outcome, ok, err, panicked, Error, ◌>>=◌, fields, length, eqb, ltb, if◌then◌else◌,
}
use gensokyo_discord.Strconv.{parse_int, format_int}
use gensokyo_discord.Config.{Settings}
use gensokyo_discord.Http.{Fetch}
use gensokyo_discord.Bolt.{Bolt}
use gensokyo_discord.Idmap.Remote

-- The messages that the commands send, with the values that they name.
pub data Notice : Type 0 where
  failed : Error → Notice
  bound : Text → Text → Notice
  pair_bound : Text → Text → Text → Text → Notice
  status : Text → Text → Notice
  pair_status : (user group : Text × Text) → Notice
  no_permission : Notice

-- What the commands read and change: the rows of the local database, idmap.TemporaryCommands, and
-- the messages sent so far.
pub record Bot (bolt : Bolt) : Type 0 where
  pub rows : Bolt.Bucket bolt
  pub commands : List Text
  pub notices : List Notice

-- An indexed read of a slice panics out of range.
unfoldable pub part : ℕ → List Text → Outcome Text
part n [] = panicked
part zero (s ∷ parts) = ok s
part (suc n) (s ∷ parts) = part n parts

-- `parseOrDefault`: a text that is no number, and the number 0, give way to the default.
unfoldable pub parse_or_default : Text → Text → Outcome ℕ
unfolding parse_int
parse_or_default s default = elim (parse_int s) [
  | ok value ↦ (if eqb value 0 then parse_int default else ok value)
  | err e ↦ parse_int default
  | panicked ↦ panicked
]

-- The rows that the parameters of the first form name.
unfoldable pub bind_rows : List Text → Outcome (ℕ × ℕ)
unfolding part parse_int
bind_rows parts = do
  old ← part 1 parts
  old_row ← parse_int old
  new ← part 2 parts
  new_row ← parse_int new
  ok (old_row, new_row)

-- The rows of the group that the parameters of the second form name. The test admits four parts,
-- but reads the fifth.
unfoldable pub bind_group : List Text → Text → Outcome (ℕ × ℕ)
unfolding part parse_int parse_or_default
bind_group parts group =
    if ltb 3 (length parts)
    then (do
      old ← part 3 parts
      old_row ← parse_or_default old group
      new ← part 4 parts
      new_row ← parse_or_default new group
      ok (old_row, new_row))
    else (do row ← parse_int group; ok (row, row))

module _ (bolt : Bolt) (s : Option Settings) (fetch : Fetch) where
  abbrev pub Done : Type 0
  Done = Outcome Unit × Bot bolt

  abbrev pub say : Notice → Bot bolt → Bot bolt
  say notice bot = record bot { notices = bot.notices ++ (notice ∷ []) }

  -- A step that ends the command with a notice when it fails.
  abbrev pub or_report {ℓ} : {A : Type ℓ} → Outcome A → Bot bolt → (A → Done) → Done
  or_report (ok a) bot next = next a
  or_report (err e) bot next = (err e, say (failed e) bot)
  or_report panicked bot next = (panicked, bot)

  -- A step that ends the command silently when it fails.
  abbrev pub or_return {ℓ} : {A : Type ℓ} → Outcome A → Bot bolt → (A → Done) → Done
  or_return (ok a) bot next = next a
  or_return (err e) bot next = (err e, bot)
  or_return panicked bot next = (panicked, bot)

  -- The last step: its failure is told to the user, but the command has succeeded.
  abbrev pub conclude : Outcome (Text × Text) → (Text × Text → Notice) → Bot bolt → Done
  conclude (ok found) notice bot = (ok tt, say (notice found) bot)
  conclude (err e) notice bot = (ok tt, say (failed e) bot)
  conclude panicked notice bot = (panicked, bot)

  unfoldable pub perform_bind_operation : Text → Bot bolt → Done
  unfolding bind_rows fields
  perform_bind_operation cleaned_message bot =
      let parts = fields cleaned_message in
      if not (eqb (length parts) 3)
      then (ok tt, bot)
      else or_return (bind_rows parts) bot λ (old_row, new_row).
        or_report (Remote.update_virtual_value_v2 bolt s fetch old_row new_row bot.rows) bot λ rows.
          conclude (Remote.retrieve_real_value_v2 bolt s fetch new_row rows)
            (λ (now, new). bound now new) (record bot { rows = rows })

  unfoldable pub perform_bind_operation_v2 : Text → Text → Bot bolt → Done
  unfolding bind_rows bind_group fields
  perform_bind_operation_v2 cleaned_message group bot =
      let parts = fields cleaned_message in
      if ltb (length parts) 3 || ltb 5 (length parts)
      then (ok tt, bot)
      else or_return (bind_rows parts) bot λ (old_user, new_user).
        or_return (bind_group parts group) bot λ (old_group, new_group).
          or_report (Remote.update_virtual_value_v2 bolt s fetch old_user new_user bot.rows) bot
            λ rows.
              let moved : Bot bolt = record bot { rows = rows } in
              or_report
                (Remote.update_virtual_value_v2_pro bolt s fetch old_group new_group old_user
                  new_user rows)
                moved
                λ rows'.
                  conclude
                    (Remote.retrieve_real_values_v2_pro bolt s fetch new_group new_user rows')
                    (λ (now, new). pair_bound now new (format_int new_group) (format_int new_user))
                    (record bot { rows = rows' })
