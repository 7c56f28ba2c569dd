-- ===== src/Handlers/Parser/Printed.antt =====
-- Texts with CQ codes in them, and what `parseMessageContent` takes out of them.
use gensokyo_discord.Prelude.{
  ℕ, zero, suc, Bool, true, false, not, ◌&&◌, ◌||◌, List, [], ◌∷◌, ◌++◌, ◌≡◌, refl, sym, ap, ◌∙◌,
  Text, has_prefix, contains_byte, every, drop, eqb, eqb_iff, eqb_refl, if◌then◌else◌, arith,
}
use gensokyo_discord.Strconv.{is_digit}
use gensokyo_discord.Handlers.Parser.Codes.{
  Pattern, local_image, url_image, url_images, base64_image, base64_record, local_record,
  url_record, url_records, markdown, qqmusic, url_video, url_videos, patterns, opening, newline,
}

-- A piece of a text: words, or a code with its group.
pub data Part : Type 0 where
  plain : Text → Part
  code : Pattern → Text → Part

unfoldable pub printed : Bool → List Part → Text
unfolding opening
printed windows [] = []
printed windows (plain s ∷ parts) = s ++ printed windows parts
printed windows (code p group ∷ parts) =
    opening windows p ++ (group ++ (b']' ∷ printed windows parts))

abbrev pub is_inner : ℕ → Bool
is_inner c = not (eqb c b'[') && not (eqb c b']') && not (eqb c newline)

abbrev pub is_nonempty : Text → Bool
is_nonempty [] = false
is_nonempty (c ∷ s) = true

-- no bracket in the words; no bracket and no line feed in a group, digits only for a piece of music
unfoldable pub is_music : Pattern → Bool
is_music local_image = false
is_music url_image = false
is_music url_images = false
is_music base64_image = false
is_music base64_record = false
is_music local_record = false
is_music url_record = false
is_music url_records = false
is_music markdown = false
is_music qqmusic = true
is_music url_video = false
is_music url_videos = false

abbrev pub is_part : Part → Bool
is_part (plain s) = not (contains_byte b'[' s)
is_part (code p group) =
    is_nonempty group && every is_inner group && (if is_music p then every is_digit group else true)

abbrev pub index : Pattern → ℕ
index local_image = 0
index url_image = 1
index url_images = 2
index base64_image = 3
index base64_record = 4
index local_record = 5
index url_record = 6
index url_records = 7
index markdown = 8
index qqmusic = 9
index url_video = 10
index url_videos = 11

unfoldable pub same : Pattern → Pattern → Bool
same p q = eqb (index p) (index q)

abbrev at_index : ℕ → List Pattern → Pattern
at_index n [] = local_image
at_index zero (p ∷ ps) = p
at_index (suc n) (p ∷ ps) = at_index n ps

at_index-index : (p : Pattern) → at_index (index p) patterns ≡ p
at_index-index local_image = refl
at_index-index url_image = refl
at_index-index url_images = refl
at_index-index base64_image = refl
at_index-index base64_record = refl
at_index-index local_record = refl
at_index-index url_record = refl
at_index-index url_records = refl
at_index-index markdown = refl
at_index-index qqmusic = refl
at_index-index url_video = refl
at_index-index url_videos = refl

pub same_eq : (p q : Pattern) → same p q ≡ true → p ≡ q
unfolding same
same_eq p q h =
    let e : index p ≡ index q = ground (arith, eqb_iff (index p) (index q)) in
    sym (at_index-index p) ∙ (ap (λ n. at_index n patterns) e ∙ at_index-index q)

pub same_refl : (p : Pattern) → same p p ≡ true
unfolding same
same_refl p = eqb_refl (index p)

-- What holds of the twelve patterns holds of every one.
pub for_each : (f : Pattern → Bool) → every f patterns ≡ true → (p : Pattern) → f p ≡ true
for_each f h local_image = ground arith
for_each f h url_image = ground arith
for_each f h url_images = ground arith
for_each f h base64_image = ground arith
for_each f h base64_record = ground arith
for_each f h local_record = ground arith
for_each f h url_record = ground arith
for_each f h url_records = ground arith
for_each f h markdown = ground arith
for_each f h qqmusic = ground arith
for_each f h url_video = ground arith
for_each f h url_videos = ground arith

-- Two texts differ at a place that both have.
abbrev pub differ : Text → Text → Bool
differ [] t = false
differ (c ∷ s) [] = false
differ (c ∷ s) (d ∷ t) = if eqb c d then differ s t else true

pub differ-append : (s t u : Text) → differ t s ≡ true → has_prefix (s ++ u) t ≡ false
differ-append s [] u h = absurd (ground arith)
differ-append [] (d ∷ t) u h = absurd (ground arith)
differ-append (c ∷ s) (d ∷ t) u h = ground (arith, differ-append s t u, eqb_iff c d, eqb_iff d c)

pub openings_differ :
    (windows : Bool) (p q : Pattern)
    → same p q ≡ false
    → differ (opening windows p) (opening windows q) ≡ true
unfolding opening same
openings_differ windows p q h =
    let e =
      for_each (λ q'. same p q' || differ (opening windows p) (opening windows q'))
        (for_each
          (λ p'.
            every (λ q'. same p' q' || differ (opening windows p') (opening windows q')) patterns)
          (elim windows
            as (λ w.
              every
                (λ p'. every (λ q'. same p' q' || differ (opening w p') (opening w q')) patterns)
                patterns
              ≡ true) [ true ↦ refl | false ↦ refl ])
          p)
        q in
    ground (arith, e, h)

-- An opening is a bracket and text without one.
pub opening-cons :
    (windows : Bool) (p : Pattern) → opening windows p ≡ b'[' ∷ drop 1 (opening windows p)
unfolding opening
opening-cons true local_image = refl
opening-cons false local_image = refl
opening-cons windows url_image = refl
opening-cons windows url_images = refl
opening-cons windows base64_image = refl
opening-cons windows base64_record = refl
opening-cons true local_record = refl
opening-cons false local_record = refl
opening-cons windows url_record = refl
opening-cons windows url_records = refl
opening-cons windows markdown = refl
opening-cons windows qqmusic = refl
opening-cons windows url_video = refl
opening-cons windows url_videos = refl

pub tail_open :
    (windows : Bool) (p : Pattern) → contains_byte b'[' (drop 1 (opening windows p)) ≡ false
unfolding opening
tail_open windows p =
    let e =
      for_each (λ q. not (contains_byte b'[' (drop 1 (opening windows q))))
        (elim windows
          as (λ w. every (λ q. not (contains_byte b'[' (drop 1 (opening w q)))) patterns ≡ true) [
            | true ↦ refl
            | false ↦ refl
          ])
        p in
    ground (arith, e)
