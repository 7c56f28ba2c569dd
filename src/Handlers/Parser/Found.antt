-- ===== src/Handlers/Parser/Found.antt =====
-- The items that `parseMessageContent` finds in a text with CQ codes in it.
use mathlib.Core.Path.{subst}
use gensokyo_discord.Prelude.{
  Bool, true, false, not, ◌&&◌, ◌||◌, Option, List, [], ◌∷◌, ◌++◌, ◌≡◌, refl, sym, ap, ◌∙◌, Text,
  every, ok, if◌then◌else◌, Bool-cases, inl, inr, arith,
}
use gensokyo_discord.Callapi.{Value}
use gensokyo_discord.Handlers.Parser.Codes.{
  Pattern, patterns, key_of, opening, take_out, Items, under, take_out_all,
}
use gensokyo_discord.Handlers.Parser.Printed.{
  Part, plain, code, printed, is_part, same, same_eq, same_refl, for_each,
}
use gensokyo_discord.Handlers.Parser.Taken.{pass, take_out-plain, take_out-own, take_out-other}
use gensokyo_discord.Handlers.Parser.{parse_message_content}

-- The groups of the codes of a pattern.
unfoldable pub groups : Pattern → List Part → List Text
groups p [] = []
groups p (plain s ∷ parts) = groups p parts
groups p (code q group ∷ parts) =
    let rest = groups p parts in if same p q then group ∷ rest else rest

unfoldable pub words : List Part → Text
words [] = []
words (plain s ∷ parts) = s ++ words parts
words (code q group ∷ parts) = words parts

unfoldable pub items_in : List Pattern → List Part → Items
unfolding groups key_of
items_in [] parts = []
items_in (p ∷ ps) parts = under (key_of p) (groups p parts) ++ items_in ps parts

abbrev without : Pattern → List Part → List Part
without p [] = []
without p (plain s ∷ parts) = plain s ∷ without p parts
without p (code q group ∷ parts) =
    let rest = without p parts in if same p q then rest else code q group ∷ rest

abbrev without_all : List Pattern → List Part → List Part
without_all [] parts = parts
without_all (p ∷ ps) parts = without_all ps (without p parts)

abbrev is_listed : Pattern → List Pattern → Bool
is_listed p [] = false
is_listed p (q ∷ ps) = same q p || is_listed p ps

abbrev is_distinct : List Pattern → Bool
is_distinct [] = true
is_distinct (p ∷ ps) = every (λ q. not (same p q)) ps && is_distinct ps

every-without :
    (p : Pattern) (parts : List Part)
    → every is_part parts ≡ true
    → every is_part (without p parts) ≡ true
every-without p [] h = refl
every-without p (plain s ∷ parts) h = ground (arith, every-without p parts)
every-without p (code q g ∷ parts) h = ground (arith, every-without p parts)

words-without : (p : Pattern) (parts : List Part) → words (without p parts) ≡ words parts
unfolding words
words-without p [] = refl
words-without p (plain s ∷ parts) = rw (words-without p parts) refl
words-without p (code q g ∷ parts) = ground (arith, words-without p parts)

words-without_all :
    (ps : List Pattern) (parts : List Part) → words (without_all ps parts) ≡ words parts
words-without_all [] parts = refl
words-without_all (p ∷ ps) parts = words-without_all ps (without p parts) ∙ words-without p parts

true-false : true ≡ false → ⊥
true-false e = cc

same_false_sym : (p q : Pattern) → same p q ≡ false → same q p ≡ false
same_false_sym p q h = elim (Bool-cases (same q p)) [
  | inl own ↦
      absurd
        (true-false (sym (subst (λ r. same p r ≡ true) (sym (same_eq q p own)) (same_refl p)) ∙ h))
  | inr other ↦ other
]

groups-without :
    (p q : Pattern) (parts : List Part)
    → same p q ≡ false
    → groups q (without p parts) ≡ groups q parts
unfolding groups
groups-without p q [] h = refl
groups-without p q (plain s ∷ parts) h = groups-without p q parts h
groups-without p q (code r g ∷ parts) h = elim (Bool-cases (same p r)) [
  | inl own ↦
      let apart : same q r ≡ false = rw (← same_eq p r own) (same_false_sym p q h) in
      rw (own, apart) (groups-without p q parts h)
  | inr other ↦ rw (other, groups-without p q parts h) refl
]

own_groups : (p : Pattern) (parts : List Part) → groups p (without p parts) ≡ []
unfolding groups
own_groups p [] = refl
own_groups p (plain s ∷ parts) = own_groups p parts
own_groups p (code q g ∷ parts) = elim (Bool-cases (same p q)) [
  | inl own ↦ rw own (own_groups p parts)
  | inr other ↦ rw (other, groups, other) (own_groups p parts)
]

no_groups :
    (p q : Pattern) (parts : List Part) → groups q parts ≡ [] → groups q (without p parts) ≡ []
no_groups p q parts h = elim (Bool-cases (same p q)) [
  | inl own ↦ rw (← same_eq p q own) (own_groups p parts)
  | inr other ↦ groups-without p q parts other ∙ h
]

no_groups_all :
    (ps : List Pattern) (q : Pattern) (parts : List Part)
    → groups q parts ≡ []
    → groups q (without_all ps parts) ≡ []
no_groups_all [] q parts h = h
no_groups_all (p ∷ ps) q parts h = no_groups_all ps q (without p parts) (no_groups p q parts h)

listed_groups :
    (ps : List Pattern) (q : Pattern) (parts : List Part)
    → is_listed q ps ≡ true
    → groups q (without_all ps parts) ≡ []
listed_groups [] q parts h = absurd (ground arith)
listed_groups (p ∷ ps) q parts h = elim (Bool-cases (same p q)) [
  | inl own ↦ no_groups_all ps q (without p parts) (rw (← same_eq p q own) (own_groups p parts))
  | inr other ↦ listed_groups ps q (without p parts) (ground (arith, other, h))
]

items-without :
    (p : Pattern) (ps : List Pattern) (parts : List Part)
    → every (λ q. not (same p q)) ps ≡ true
    → items_in ps (without p parts) ≡ items_in ps parts
unfolding items_in
items-without p [] parts h = refl
items-without p (q ∷ ps) parts h =
    rw (groups-without p q parts (ground arith), items-without p ps parts (ground arith)) refl

grew : (g : Text) (gs : List Text) → g ∷ gs ≡ [] → ⊥
grew g gs e = cc

all_listed : (p : Pattern) → is_listed p patterns ≡ true
unfolding same
all_listed p = for_each (λ q. is_listed q patterns) refl p

all_distinct : is_distinct patterns ≡ true
unfolding same
all_distinct = refl

module _ (windows : Bool) where
  printed_plain :
      (parts : List Part)
      → ((p : Pattern) → groups p parts ≡ [])
      → printed windows parts ≡ words parts
  unfolding printed words groups
  printed_plain [] h = refl
  printed_plain (plain s ∷ parts) h = rw (printed_plain parts h) refl
  printed_plain (code q g ∷ parts) h = absurd (grew g (groups q parts) (rw (same_refl q) at (h q)))

  take_out-printed :
      (p : Pattern) (parts : List Part)
      → every is_part parts ≡ true
      → take_out windows p 0 (printed windows parts)
        ≡ (groups p parts, printed windows (without p parts))
  unfolding printed groups take_out
  take_out-printed p [] h = refl
  take_out-printed p (plain s ∷ parts) h =
      take_out-plain windows p s (printed windows parts) (ground arith)
      ∙ ap (pass windows p s) (take_out-printed p parts (ground arith))
  take_out-printed p (code q g ∷ parts) h = elim (Bool-cases (same p q)) [
    | inl own ↦ rw own (
        subst
          (λ r.
            take_out windows p 0 (opening windows r ++ (g ++ (b']' ∷ printed windows parts)))
            ≡ (g ∷ groups p parts, printed windows (without p parts)))
          (same_eq p q own)
          (take_out-own windows p g (printed windows parts)
              (subst (λ r. is_part (code r g) ≡ true) (sym (same_eq p q own)) (ground arith))
            ∙ ap (λ r. (g ∷ r.0, r.1)) (take_out-printed p parts (ground arith))))
    | inr other ↦ rw other (
        take_out-other windows p q g (printed windows parts) other (ground arith)
        ∙ ap (λ r. (r.0, opening windows q ++ (g ++ (b']' ∷ r.1))))
            (take_out-printed p parts (ground arith)))
  ]

  take_out_all-printed :
      (ps : List Pattern) (parts : List Part)
      → is_distinct ps ≡ true
      → every is_part parts ≡ true
      → take_out_all windows ps (printed windows parts)
        ≡ (items_in ps parts, printed windows (without_all ps parts))
  unfolding take_out_all items_in
  take_out_all-printed [] parts d h = refl
  take_out_all-printed (p ∷ ps) parts d h =
      rw
        (
          take_out-printed p parts h,
          take_out_all-printed ps (without p parts) (ground arith) (every-without p parts h),
          items-without p ps parts (ground arith),
        )
        refl

  module _ (marshal : Value → Option Text) (unmarshal : Text → Option Value)
      (base64 : Text → Text) where
    -- A text of words and CQ codes, where no words have an opening bracket and every code has a group that
    -- is not empty, has no bracket and no line feed, and only digits in a piece of music, is read as its
    -- words alone, and as the groups of its codes, in the order of the patterns and under a pattern in
    -- that of the text.
    pub parse_message_content-printed :
        (parts : List Part)
        → every is_part parts ≡ true
        → parse_message_content marshal unmarshal base64 windows
            (Value.string (printed windows parts))
          ≡ ok (words parts, items_in patterns parts)
    unfolding parse_message_content
    parse_message_content-printed parts h =
        let plain_left : printed windows (without_all patterns parts) ≡ words parts =
          printed_plain (without_all patterns parts)
            (λ p. listed_groups patterns p parts (all_listed p))
          ∙ words-without_all patterns parts in
        ap (λ r. ok (r.1, r.0))
          (take_out_all-printed patterns parts all_distinct h
            ∙ ap (λ t. (items_in patterns parts, t)) plain_left)
