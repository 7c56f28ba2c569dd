-- ===== src/Processor/Bind/Laws.antt =====
-- What the bind commands do to the rows and what they tell the user, without the setting `lotus`.
use gensokyo_discord.Prelude.{
  ℕ, true, false, Option, [], ◌∷◌, ◌++◌, ◌≡◌, ◌≢◌, refl, Text, ok, err, panicked, fields, Error,
}
use gensokyo_discord.Strconv.{parse_int, format_int}
use gensokyo_discord.Config.{Settings, get_lotus_value}
use gensokyo_discord.Http.{Fetch}
use gensokyo_discord.Bolt.{Bolt}
use gensokyo_discord.Idmap.Keys.{is_plain}
use gensokyo_discord.Idmap.Ids.{retrieve_real_value, update_virtual_value}
use gensokyo_discord.Idmap.Ids.Consistent.{IsConsistent}
use gensokyo_discord.Idmap.Ids.Store.{IsStored, IsFree}
use gensokyo_discord.Idmap.Ids.Update.{update_virtual_value_lem}
use gensokyo_discord.Idmap.Remote.{update_virtual_value_v2, retrieve_real_value_v2}
use gensokyo_discord.Processor.Bind.{
  Bot, failed, bound, part, parse_or_default, bind_rows, bind_group, perform_bind_operation,
  perform_bind_operation_v2,
}

module _ (bolt : Bolt) (s : Option Settings) (fetch : Fetch)
    (local_db : get_lotus_value s ≡ false) where
  open bolt use {Bucket, get}

  module _ (message verb old new : Text) (old_row new_row : ℕ) (bot : Bot bolt)
      (words : fields message ≡ verb ∷ old ∷ new ∷ []) (old_ok : parse_int old ≡ ok old_row)
      (new_ok : parse_int new ≡ ok new_row) where
    rows_read : bind_rows (verb ∷ old ∷ new ∷ []) ≡ ok (old_row, new_row)
    unfolding bind_rows part
    rows_read = rw (old_ok, new_ok) refl

    -- When the update is refused, nothing changes but that the user is told why.
    pub perform_bind_operation_refused :
        (e : Error)
        → update_virtual_value bolt old_row new_row bot.rows ≡ err e
        → perform_bind_operation bolt s fetch message bot
          ≡ (err e, record bot { notices = bot.notices ++ (failed e ∷ []) })
    unfolding perform_bind_operation update_virtual_value_v2
    perform_bind_operation_refused e refused = rw (words, rows_read, local_db, refused) refl

    -- The command on a stored plain identifier's row and a free row moves the identifier: the reply names
    -- the new row and the identifier, the new row leads to it and it to the new row, and every other
    -- identifier keeps its row.
    pub perform_bind_operation_lem :
        (id : Text)
        → is_plain id ≡ true
        → IsStored bolt bot.rows id old_row
        → IsFree bolt bot.rows new_row
        → IsConsistent bolt bot.rows
        → (b' : Bucket) × (perform_bind_operation bolt s fetch message bot ≡ (
          ok tt,
          record bot { rows = b'; notices = bot.notices ++ (bound (format_int new_row) id ∷ []) },
        ))
          × IsStored bolt b' id new_row
          × ((j : Text) (r : ℕ)
              → is_plain j ≡ true
              → id ≢ j
              → IsStored bolt bot.rows j r
              → IsStored bolt b' j r)
    unfolding perform_bind_operation update_virtual_value_v2 retrieve_real_value_v2
        retrieve_real_value
    perform_bind_operation_lem id plain held free ok_b =
        let (b', done, moved, gone, ok_b', others) =
          update_virtual_value_lem bolt id old_row new_row bot.rows plain held free ok_b in
        (b', rw (words, rows_read, local_db, done, moved.backward) refl, moved, others)

  -- With four fields the second form panics as soon as the first three numbers are read, whatever they
  -- are: the guard lets four fields pass, and the fifth is read.
  pub perform_bind_operation_v2_panics :
      (message group verb old new third : Text) (old_row new_row old_group : ℕ) (bot : Bot bolt)
      → fields message ≡ verb ∷ old ∷ new ∷ third ∷ []
      → parse_int old ≡ ok old_row
      → parse_int new ≡ ok new_row
      → parse_or_default third group ≡ ok old_group
      → perform_bind_operation_v2 bolt s fetch message group bot ≡ (panicked, bot)
  unfolding perform_bind_operation_v2 bind_rows bind_group part
  perform_bind_operation_v2_panics message group verb old new third old_row new_row old_group bot
        words old_ok new_ok third_ok =
      rw (words, old_ok, new_ok, third_ok) refl
