-- ===== src/Tests/Bind.antt =====
-- Processor/Processor.go: the bind command on a concrete database.
use gensokyo_discord.Prelude.{
  ℕ, true, false, none, some, [], ◌∷◌, ◌++◌, ◌≡◌, ◌≢◌, refl, Text, codes, Outcome, ok, err,
  panicked, pair_missing, fields, arith, ok_pair,
}
use gensokyo_discord.Strconv.{format_int, parse_int, read_row, row_bytes}
use gensokyo_discord.Tests.Sample.{plain_settings}
use gensokyo_discord.Config.{Settings}
use gensokyo_discord.Http.{Fetch}
use gensokyo_discord.Bolt.{Bolt}
use gensokyo_discord.Bolt.Sorted.{sorted_bolt, SortedBucket, sorted_run}
use gensokyo_discord.Bolt.Writes.{put_silently}
use gensokyo_discord.Idmap.Keys.{is_plain, row_key, pair_key}
use gensokyo_discord.Idmap.Ids.{store_id, retrieve_virtual_value}
use gensokyo_discord.Idmap.Ids.Store.{IsStored, IsFree}
use gensokyo_discord.Idmap.Ids.Consistent.{IsConsistent}
use gensokyo_discord.Idmap.Ids.Counter.{empty-IsConsistent}
use gensokyo_discord.Idmap.Ids.RoundTrip.{store_id-IsReadable}
use gensokyo_discord.Idmap.RowId.{generate_row_id}
use gensokyo_discord.Idmap.Remote.{retrieve_virtual_value_v2}
use gensokyo_discord.Processor.Commands.{contains, is_valid_temporary_command}
use gensokyo_discord.Processor.Bind.{
  Bot, failed, bound, parse_or_default, perform_bind_operation, perform_bind_operation_v2,
}
use gensokyo_discord.Processor.Bind.Laws.{
  perform_bind_operation_lem, perform_bind_operation_v2_panics,
}
use gensokyo_discord.Processor.Bind.Partial.{perform_bind_operation_v2_moves_and_fails}
use gensokyo_discord.Processor.Framework.{Message, handle_framework_command, use_command}
use gensokyo_discord.Processor.Framework.Laws.{handle_framework_command_barred}

abbrev sample_hash : Text → Text
sample_hash id = id ++ codes "a0123456789"

abbrev ann : Text
ann = codes "11"

abbrev none_yet : SortedBucket
none_yet = Bolt.empty sorted_bolt

abbrev bucket_of {ℓ} : {A : Type ℓ} → Outcome (A × SortedBucket) → SortedBucket
bucket_of (ok (_, b)) = b
bucket_of (err e) = none_yet
bucket_of panicked = none_yet

abbrev with_ann : SortedBucket
with_ann = bucket_of (store_id sorted_bolt sample_hash true ann none_yet)

abbrev settings : Settings
settings = record plain_settings { master_id = codes "99" ∷ [] }

abbrev unplugged : Fetch
unplugged url = none

abbrev bot : Bot sorted_bolt
bot = record { rows = with_ann; commands = []; notices = [] }

bind_run : Unit {0}
unfolding sorted_run store_id put_silently read_row format_int row_bytes parse_int generate_row_id
    is_plain fields parse_or_default contains is_valid_temporary_command use_command
    retrieve_virtual_value retrieve_virtual_value_v2
bind_run = tt

plain_ann : is_plain ann ≡ true
unfolding bind_run
plain_ann = refl

ann_stored : store_id sorted_bolt sample_hash true ann none_yet ≡ ok (110123456, with_ann)
unfolding bind_run
ann_stored = refl

ann_held : IsStored sorted_bolt with_ann ann 110123456
unfolding bind_run
ann_held = record { word = omega arith; forward = refl; backward = refl }

seven-IsFree : IsFree sorted_bolt with_ann 7
unfolding bind_run
seven-IsFree = record { word = omega arith; unused = refl }

ann_consistent : IsConsistent sorted_bolt with_ann
ann_consistent =
    (store_id-IsReadable sorted_bolt sample_hash ann none_yet 110123456 with_ann plain_ann
      (empty-IsConsistent sorted_bolt) ann_stored).0

abbrev to_seven : Text
to_seven = codes "/bind 110123456 7"

abbrev old : Text
old = codes "110123456"

seven_words : fields to_seven ≡ codes "/bind" ∷ old ∷ codes "7" ∷ []
unfolding bind_run
seven_words = refl

old_ok : parse_int old ≡ ok 110123456
unfolding bind_run
old_ok = refl

seven_ok : parse_int (codes "7") ≡ ok 7
unfolding bind_run
seven_ok = refl

perform_bind_operation_lem_example :
    (b' : SortedBucket) × (perform_bind_operation sorted_bolt (some settings) unplugged to_seven bot
      ≡ (ok tt, record bot { rows = b'; notices = bound (format_int 7) ann ∷ [] }))
    × IsStored sorted_bolt b' ann 7
    × ((j : Text) (r : ℕ)
        → is_plain j ≡ true
        → ann ≢ j
        → IsStored sorted_bolt with_ann j r
        → IsStored sorted_bolt b' j r)
perform_bind_operation_lem_example =
    perform_bind_operation_lem sorted_bolt (some settings) unplugged refl to_seven (codes "/bind")
      old (codes "7") 110123456 7 bot seven_words old_ok seven_ok ann plain_ann ann_held
      seven-IsFree ann_consistent

no_pair : Bolt.get sorted_bolt with_ann (pair_key (format_int 7) (format_int 110123456)) ≡ none
unfolding bind_run
no_pair = refl

perform_bind_operation_v2_moves_and_fails_example :
    (b' : SortedBucket) × (perform_bind_operation_v2 sorted_bolt
        (some settings)
        unplugged
        to_seven
        (codes "7")
        bot
      ≡ (err pair_missing, record bot { rows = b'; notices = failed pair_missing ∷ [] }))
    × IsStored sorted_bolt b' ann 7
    × (Bolt.get sorted_bolt b' (row_key 110123456) ≡ none)
perform_bind_operation_v2_moves_and_fails_example =
    perform_bind_operation_v2_moves_and_fails sorted_bolt (some settings) unplugged to_seven
      (codes "7") (codes "/bind") old (codes "7") 110123456 7 7 ann bot refl seven_words old_ok
      seven_ok seven_ok plain_ann ann_held seven-IsFree ann_consistent no_pair

abbrev four : Text
four = codes "/bind 110123456 7 7"

four_words : fields four ≡ codes "/bind" ∷ old ∷ codes "7" ∷ codes "7" ∷ []
unfolding bind_run
four_words = refl

third_ok : parse_or_default (codes "7") (codes "9") ≡ ok 7
unfolding bind_run
third_ok = refl

perform_bind_operation_v2_panics_example :
    perform_bind_operation_v2 sorted_bolt (some settings) unplugged four (codes "9") bot
    ≡ (panicked, bot)
perform_bind_operation_v2_panics_example =
    perform_bind_operation_v2_panics sorted_bolt (some settings) unplugged refl four (codes "9")
      (codes "/bind") old (codes "7") (codes "7") 110123456 7 7 bot four_words old_ok seven_ok
      third_ok

-- Ann is no master and asks to be bound to row 7.
abbrev ann_asks : Message
ann_asks = record { cleaned = to_seven; real_user = ann; real_group = codes "5"; is_guild = true }

ann_unlisted : contains (codes "99" ∷ []) ann ≡ false
unfolding bind_run
ann_unlisted = refl

empty_unlisted : contains (codes "99" ∷ []) [] ≡ false
unfolding bind_run
empty_unlisted = refl

ann_virtual :
    (real virtual : Text)
    → retrieve_virtual_value_v2 sorted_bolt (some settings) unplugged ann with_ann
      ≡ ok (real, virtual)
    → contains (codes "99" ∷ []) virtual ≡ false
unfolding bind_run
ann_virtual real virtual is = rw (← (ok_pair is).1) refl

no_command :
    (use_command sorted_bolt
      (some settings)
      unplugged
      (some 0x3F)
      (true, true)
      (fields to_seven)
      []).0
    ≡ false
unfolding bind_run
no_command = refl

handle_framework_command_barred_example :
    (handle_framework_command sorted_bolt
      (some settings)
      unplugged
      (some 0x3F)
      (true, true)
      ann_asks
      bot).1.rows
    ≡ with_ann
handle_framework_command_barred_example =
    handle_framework_command_barred sorted_bolt (some settings) unplugged (some 0x3F) (true, true)
      ann_asks (codes "99") [] refl ann_unlisted empty_unlisted bot ann_virtual no_command
