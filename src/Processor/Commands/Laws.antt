-- ===== src/Processor/Commands/Laws.antt =====
-- How often a one-time command can be used.
use gensokyo_discord.Prelude.{
  ℕ, ◌+◌, ◌-◌, true, false, Option, List, [], ◌∷◌, ◌++◌, ◌≡◌, refl, sym, ap, ◌∙◌, inl, inr,
  Bool-cases, Text, ◌==◌, eq_iff, eq_refl, if◌then◌else◌, arith, ltb,
}
use gensokyo_discord.Processor.Commands.{
  handle_no_permission, is_valid_temporary_command, generate_temporary_command,
}

-- How many uses of a command the slice holds.
unfoldable pub uses : Text → List Text → ℕ
uses cmd [] = 0
uses cmd (c ∷ rest) = (if c == cmd then 1 else 0) + uses cmd rest

uses-append : (cmd : Text) (xs ys : List Text) → uses cmd (xs ++ ys) ≡ uses cmd xs + uses cmd ys
unfolding uses
uses-append cmd [] ys = omega arith
uses-append cmd (x ∷ xs) ys = omega (arith, uses-append cmd xs ys)

-- A command is accepted exactly when a use of it is left; then that one use is gone, and no other
-- command loses any.
is_valid_temporary_command_lem :
    (cmd other : Text) (commands : List Text)
    → ((is_valid_temporary_command cmd commands).0 ≡ ltb 0 (uses cmd commands))
      × (uses other (is_valid_temporary_command cmd commands).1
          ≡ uses other commands - (if cmd == other then 1 else 0))
unfolding is_valid_temporary_command uses
is_valid_temporary_command_lem cmd other [] = (refl, omega arith)
is_valid_temporary_command_lem cmd other (c ∷ rest) =
    let rest-lem = is_valid_temporary_command_lem cmd other rest in
    elim (Bool-cases (c == cmd)) [
      | inl same ↦
          (let agree = ap (λ t. t == other) ((eq_iff c cmd).0 same) in ground (arith, same, agree))
      | inr differ ↦
          (let apart = λ (both : (c == other ≡ true) × (cmd == other ≡ true)).
              (eq_iff c cmd).1 ((eq_iff c other).0 both.0 ∙ sym ((eq_iff cmd other).0 both.1)) in
            ground (arith, differ, rest-lem, apart))
    ]

-- Making a command adds one use of it, so a fresh command is accepted once and then refused.
pub temporary_command_once :
    (random : Option ℕ) (commands : List Text)
    → uses (generate_temporary_command random) commands ≡ 0
    → let made = handle_no_permission random commands in
      let first = is_valid_temporary_command made.0 made.1 in
      (first.0 ≡ true) × ((is_valid_temporary_command made.0 first.1).0 ≡ false)
unfolding handle_no_permission uses
temporary_command_once random commands fresh =
    let cmd = generate_temporary_command random in
    let made = commands ++ (cmd ∷ []) in
    let first = is_valid_temporary_command_lem cmd cmd made in
    let second = is_valid_temporary_command_lem cmd cmd (is_valid_temporary_command cmd made).1 in
    let count = uses-append cmd commands (cmd ∷ []) in
    let same = eq_refl cmd in
    let one : uses cmd made ≡ 1 = ground (arith, count, fresh, same) in
    let none_left : uses cmd (is_valid_temporary_command cmd made).1 ≡ 0 =
      ground (arith, first, one, same) in
    (first.0 ∙ rw one refl, second.0 ∙ rw none_left refl)
