-- ===== src/Prelude/Fields.antt =====
-- `strings.Fields`: the words between white space, which is Unicode's in its UTF-8 form.
use Prim.Native.Nat.{ℕ, zero, suc, ◌-◌}
use mathlib.Core.Bool.{Bool, ◌&&◌, ◌||◌}
use mathlib.Core.List.{List, [], ◌∷◌, ◌++◌}
use gensokyo_discord.Prelude.Tests.{eqb, leb, if◌then◌else◌}
use gensokyo_discord.Prelude.Texts.{Text}

abbrev one_byte : ℕ → Bool
one_byte a = eqb a 32 || (leb 9 a && leb a 13)

-- U+0085 and U+00A0
abbrev two_bytes : ℕ → ℕ → Bool
two_bytes a b = eqb a 0xC2 && (eqb b 0x85 || eqb b 0xA0)

-- U+1680, U+2000 to U+200A, U+2028, U+2029, U+202F, U+205F and U+3000
abbrev three_bytes : ℕ → ℕ → ℕ → Bool
three_bytes a b c =
    (eqb a 0xE1 && eqb b 0x9A && eqb c 0x80)
    || (eqb a 0xE2
        && eqb b 0x80
        && ((leb 0x80 c && leb c 0x8A) || eqb c 0xA8 || eqb c 0xA9 || eqb c 0xAF))
    || (eqb a 0xE2 && eqb b 0x81 && eqb c 0x9F)
    || (eqb a 0xE3 && eqb b 0x80 && eqb c 0x80)

-- How many bytes of white space the text begins with, for one character; 0 if for none.
unfoldable pub space_width : Text → ℕ
space_width [] = 0
space_width (a ∷ []) = if one_byte a then 1 else 0
space_width (a ∷ b ∷ []) = if one_byte a then 1 else if two_bytes a b then 2 else 0
space_width (a ∷ b ∷ c ∷ s) =
    if one_byte a then 1 else if two_bytes a b then 2 else if three_bytes a b c then 3 else 0

abbrev flush : Text → List Text
flush [] = []
flush (c ∷ word) = (c ∷ word) ∷ []

-- The first argument counts the bytes of a white space character that are still to be passed over,
-- the second is the word so far.
unfoldable pub fields_from : ℕ → Text → Text → List Text
unfolding space_width
fields_from skip word [] = flush word
fields_from (suc skip) word (c ∷ s) = fields_from skip word s
fields_from zero word (c ∷ s) =
    let in_word = fields_from zero (word ++ (c ∷ [])) s in
    let behind = flush word ++ fields_from (space_width (c ∷ s) - 1) [] s in
    if eqb (space_width (c ∷ s)) 0 then in_word else behind

unfoldable pub fields : Text → List Text
unfolding fields_from
fields s = fields_from 0 [] s
