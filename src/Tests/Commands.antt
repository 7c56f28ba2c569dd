-- ===== src/Tests/Commands.antt =====
-- Processor/Processor.go: the bind command and the one-time commands on a concrete database.
use gensokyo_discord.Prelude.{true, false, some, [], ◌≡◌, refl, Text, codes}
use gensokyo_discord.Processor.Commands.{
  handle_no_permission, is_valid_temporary_command, generate_temporary_command,
}
use gensokyo_discord.Processor.Commands.Laws.{uses, temporary_command_once}

abbrev code : Text
code = codes "3f"

commands_run : Unit {0}
unfolding handle_no_permission is_valid_temporary_command generate_temporary_command uses
commands_run = tt

no_use : uses (generate_temporary_command (some 0x3F)) [] ≡ 0
unfolding commands_run
no_use = refl

temporary_command_once_example :
    let made = handle_no_permission (some 0x3F) [] in
    let first = is_valid_temporary_command made.0 made.1 in
    (first.0 ≡ true) × ((is_valid_temporary_command made.0 first.1).0 ≡ false)
temporary_command_once_example = temporary_command_once (some 0x3F) [] no_use
