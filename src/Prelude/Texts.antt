-- ===== src/Prelude/Texts.antt =====
-- Go strings and byte slices: lists of bytes, with the functions of the package `strings` that the
-- program calls.
use Prim.Native.Char.{code}
use Prim.Native.Nat.{ℕ}
use Prim.Native.String.{String}
use mathlib.Core.Bool.{Bool, true, false, ◌&&◌, ◌||◌}
use mathlib.Core.List.{List, [], ◌∷◌, ◌++◌}
use mathlib.Core.Logic.{◌↔◌}
use mathlib.Core.Path.{◌≡◌, refl}
use native.Mathlib.Omega.{arith}
use gensokyo_discord.Prelude.Tests.{eqb, eqb_iff, eqb_refl, if◌then◌else◌}

abbrev pub Text : Type 0
Text = List ℕ

-- The bytes of an ASCII literal.
abbrev pub codes : String → Text
codes String.[] = []
codes (String.◌∷◌ c s) = code c ∷ codes s

infix 50 ◌==◌
abbrev pub ◌==◌ : Text → Text → Bool
[] == [] = true
[] == (y ∷ ys) = false
(x ∷ xs) == [] = false
(x ∷ xs) == (y ∷ ys) = eqb x y && xs == ys

-- `strings.HasPrefix` and `bytes.HasPrefix`.
abbrev pub has_prefix : Text → Text → Bool
has_prefix s [] = true
has_prefix [] (p ∷ ps) = false
has_prefix (c ∷ s) (p ∷ ps) = eqb c p && has_prefix s ps

-- Does the byte stand in the text?
abbrev pub contains_byte : ℕ → Text → Bool
contains_byte c [] = false
contains_byte c (x ∷ xs) = eqb x c || contains_byte c xs

pub eq_refl : (s : Text) → s == s ≡ true
eq_refl [] = refl
eq_refl (x ∷ s) = ground (arith, eqb_refl x, eq_refl s)

eq_sound : (s t : Text) → s == t ≡ true → s ≡ t
eq_sound [] [] h = refl
eq_sound [] (y ∷ t) h = cc
eq_sound (x ∷ s) [] h = cc
eq_sound (x ∷ s) (y ∷ t) h = ground (arith, eqb_iff x y, eq_sound s t)

pub eq_iff : (s t : Text) → (s == t ≡ true) ↔ (s ≡ t)
eq_iff s t = (eq_sound s t, λ e. subst_eq e)
  where
    subst_eq : s ≡ t → s == t ≡ true
    subst_eq e = rw (← e) (eq_refl s)

pub has_prefix-append : (p s : Text) → has_prefix (p ++ s) p ≡ true
has_prefix-append [] s = refl
has_prefix-append (c ∷ p) s = ground (arith, eqb_refl c, has_prefix-append p s)

abbrev prepend : ℕ → List Text → List Text
prepend c [] = (c ∷ []) ∷ []
prepend c (part ∷ parts) = (c ∷ part) ∷ parts

-- `strings.Split(s, sep)` for a separator of one byte: one part more than there are separators.
unfoldable pub split : Text → ℕ → List Text
split [] sep = [] ∷ []
split (c ∷ s) sep = let parts = split s sep in if eqb c sep then [] ∷ parts else prepend c parts

pub split_none : (s : Text) (sep : ℕ) → contains_byte sep s ≡ false → split s sep ≡ s ∷ []
unfolding split
split_none [] sep h = refl
split_none (c ∷ s) sep h = ground (arith, split_none s sep)

pub split-append :
    (s t : Text) (sep : ℕ)
    → contains_byte sep s ≡ false
    → split (s ++ (sep ∷ t)) sep ≡ s ∷ split t sep
unfolding split
split-append [] t sep h = ground (arith, eqb_refl sep)
split-append (c ∷ s) t sep h = ground (arith, split-append s t sep)

-- `strings.HasSuffix`: the text is the suffix, or what follows its first byte ends in it.
unfoldable pub has_suffix : Text → Text → Bool
has_suffix [] suffix = [] == suffix
has_suffix (c ∷ s) suffix = (c ∷ s) == suffix || has_suffix s suffix

pub has_suffix-append : (p s : Text) → has_suffix (p ++ s) s ≡ true
unfolding has_suffix
has_suffix-append [] [] = refl
has_suffix-append [] (c ∷ s) = ground (arith, eq_refl (c ∷ s))
has_suffix-append (x ∷ p) s = ground (arith, has_suffix-append p s)
