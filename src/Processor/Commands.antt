-- ===== src/Processor/Commands.antt =====
-- The one-time commands of Processor/Processor.go, which let their user skip the permission check of
-- the bind command once. They stand in the global slice idmap.TemporaryCommands.
pub mod Laws
use gensokyo_discord.Prelude.{
  ℕ, ◌+◌, ◌-◌, ◌/◌, ◌%◌, Bool, true, false, Option, none, some, List, [], ◌∷◌, ◌++◌, Text, ◌==◌,
  ltb, if◌then◌else◌,
}

-- `contains`
unfoldable pub contains : List Text → Text → Bool
contains [] item = false
contains (a ∷ rest) item = if a == item then true else contains rest item

-- one digit of hex.EncodeToString
abbrev hex_digit : ℕ → ℕ
hex_digit d = if ltb d 10 then b'0' + d else b'a' + (d - 10)

-- `generateTemporaryCommand` with the byte that rand.Read delivers; on its error, the empty text
-- that the caller goes on with.
unfoldable pub generate_temporary_command : Option ℕ → Text
generate_temporary_command none = []
generate_temporary_command (some byte) = hex_digit (byte / 16) ∷ hex_digit (byte % 16) ∷ []

-- the command, and the commands that are valid now
unfoldable pub handle_no_permission : Option ℕ → List Text → Text × List Text
unfolding generate_temporary_command
handle_no_permission random commands =
    let cmd = generate_temporary_command random in (cmd, commands ++ (cmd ∷ []))

-- A valid command is taken off the slice.
unfoldable pub is_valid_temporary_command : Text → List Text → Bool × List Text
is_valid_temporary_command cmd [] = (false, [])
is_valid_temporary_command cmd (c ∷ rest) =
    let later = is_valid_temporary_command cmd rest in
    if c == cmd then (true, rest) else (later.0, c ∷ later.1)
