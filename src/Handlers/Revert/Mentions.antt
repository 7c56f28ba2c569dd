-- ===== src/Handlers/Revert/Mentions.antt =====
-- Texts that stand for users: `<@!1>` becomes `[CQ:at,qq=1]`, with the number under which the user is stored.
use gensokyo_discord.Prelude.{
  ℕ, zero, suc, ◌+◌, ◌-◌, Bool, true, false, not, ◌&&◌, Option, none, some, [], ◌∷◌, ◌++◌, Text,
  ◌==◌, codes, has_prefix, drop, length, Outcome, ok, err, panicked, ◌>>=◌, space_width, eqb, leb,
  if◌then◌else◌,
}
use gensokyo_discord.Strconv.{is_digit, format_int}
use gensokyo_discord.Config.{Settings, get_remove_at}
use gensokyo_discord.Http.{Fetch}
use gensokyo_discord.Bolt.{Bolt}
use gensokyo_discord.Idmap.Remote
use gensokyo_discord.Handlers.Types.{World}

-- strings.TrimSpace; the first argument counts bytes of a white space character still to be passed over.
unfoldable pub is_blank : ℕ → Text → Bool
unfolding space_width
is_blank skip [] = true
is_blank (suc skip) (c ∷ s) = is_blank skip s
is_blank zero (c ∷ s) =
    let rest = is_blank (space_width (c ∷ s) - 1) s in
    if eqb (space_width (c ∷ s)) 0 then false else rest

unfoldable pub trim_left : ℕ → Text → Text
unfolding space_width
trim_left skip [] = []
trim_left (suc skip) (c ∷ s) = trim_left skip s
trim_left zero (c ∷ s) =
    let rest = trim_left (space_width (c ∷ s) - 1) s in
    if eqb (space_width (c ∷ s)) 0 then c ∷ s else rest

unfoldable pub trim_right : Text → Text
unfolding is_blank
trim_right [] = []
trim_right (c ∷ s) = let rest = c ∷ trim_right s in if is_blank 0 (c ∷ s) then [] else rest

unfoldable pub trim_space : Text → Text
unfolding trim_left trim_right
trim_space s = trim_right (trim_left 0 s)

-- strings.ReplaceAll; an empty `old` stands between any two characters, and before and behind the text.
abbrev continues : ℕ → Bool
continues c = leb 128 c && leb c 191

unfoldable pub replace_from : ℕ → (old new : Text) → Text → Text
replace_from skip old new [] = if old == [] then new else []
replace_from (suc skip) old new (c ∷ s) = replace_from skip old new s
replace_from zero old new (c ∷ s) =
    let same = c ∷ replace_from zero old new s in
    let replaced = new ++ replace_from (length old - 1) old new s in
    if old == []
    then (if continues c then same else new ++ same)
    else if has_prefix (c ∷ s) old
    then replaced
    else same

unfoldable pub replace_all : (old new : Text) → Text → Text
unfolding replace_from
replace_all old new s = replace_from 0 old new s

-- A match of `\d+` and the text behind it.
unfoldable pub number_of : Text → Text × Text
number_of [] = ([], [])
number_of (c ∷ s) =
    let (number, rest) = number_of s in if is_digit c then (c ∷ number, rest) else ([], c ∷ s)

-- A match of an opening, a number and a closing at the beginning of a text: the number.
unfoldable pub match_number : (opening closing : Text) → Text → Option Text
unfolding number_of
match_number opening closing s =
    let (number, rest) = number_of (drop (length opening) s) in
    if has_prefix s opening && not (number == []) && has_prefix rest closing
    then some number
    else none

-- The CQ codes of mentions are taken out of a command.
unfoldable pub without_codes : ℕ → Text → Text
unfolding match_number
without_codes skip [] = []
without_codes (suc skip) (c ∷ s) = without_codes skip s
without_codes zero (c ∷ s) =
    elim (match_number (codes "[CQ:at,qq=") (codes "]") (c ∷ s)) as (λ _. Text) [
      | none ↦ c ∷ without_codes zero s
      | some number ↦ without_codes (length number + 10) s
    ]

abbrev at_code : Text → Text
at_code number = codes "[CQ:at,qq=" ++ (number ++ codes "]")

module _ (bolt : Bolt) (s : Option Settings) (fetch : Fetch) (md5_hex : Text → Text)
    (app : Text) where
  -- A user that cannot be stored keeps the real number.
  unfoldable pub revert_mention : Text → World bolt → Outcome (Text × World bolt)
  revert_mention number w =
      if number == app
      then ok ((if get_remove_at s then [] else at_code app), w)
      else elim (Remote.store_id_v2 bolt s fetch md5_hex number w.ids)
          as (λ _. Outcome (Text × World bolt)) [
            | ok stored ↦ ok (at_code (format_int (stored.0)), record w { ids = stored.1 })
            | err e ↦ ok (at_code number, w)
            | panicked ↦ panicked
          ]

  unfoldable pub revert_mentions : ℕ → Text → World bolt → Outcome (Text × World bolt)
  unfolding revert_mention match_number
  revert_mentions skip [] w = ok ([], w)
  revert_mentions (suc skip) (c ∷ t) w = revert_mentions skip t w
  revert_mentions zero (c ∷ t) w =
      elim (match_number (codes "<@!") (codes ">") (c ∷ t)) as (λ _. Outcome (Text × World bolt)) [
        | none ↦ (revert_mentions zero t w >>= λ rest. ok (c ∷ rest.0, rest.1))
        | some number ↦
            (revert_mention number w >>= λ at.
            revert_mentions (length number + 3) t at.1 >>= λ rest. ok (at.0 ++ rest.0, rest.1))
      ]
