-- ===== src/Handlers/Parser/Taken.antt =====
-- What `parseMessageContent` takes out of a text with CQ codes in it.
use mathlib.Core.Path.{subst}
use gensokyo_discord.Prelude.{
  ℕ, zero, suc, ◌+◌, Bool, true, false, ◌&&◌, none, some, List, [], ◌∷◌, ◌++◌, ◌≡◌, refl, sym, ap,
  ◌∙◌, Text, codes, has_prefix, has_prefix-append, contains_byte, every, drop, length, eqb, arith,
}
use gensokyo_discord.Strconv.{is_digit}
use gensokyo_discord.Handlers.Revert.Mentions.{number_of, match_number}
use gensokyo_discord.Handlers.Parser.Codes.{
  Pattern, local_image, url_image, url_images, base64_image, base64_record, local_record,
  url_record, url_records, markdown, qqmusic, url_video, url_videos, opening, until_bracket,
  path_group, any_group, group_of, match_code, take_out,
}
use gensokyo_discord.Handlers.Parser.Printed.{
  code, is_inner, is_nonempty, is_music, is_part, same, differ-append, openings_differ,
  opening-cons, tail_open,
}

drop-append : (s t : Text) → drop (length s) (s ++ t) ≡ t
drop-append [] t = refl
drop-append (c ∷ s) t = drop-append s t

until_bracket-append :
    (lines : Bool) (g t : Text)
    → every is_inner g ≡ true
    → until_bracket lines (g ++ (b']' ∷ t)) ≡ some g
unfolding until_bracket
until_bracket-append lines [] t h = refl
until_bracket-append lines (c ∷ g) t h = ground (arith, until_bracket-append lines g t)

any_group-append :
    (g t : Text) → is_nonempty g && every is_inner g ≡ true → any_group (g ++ (b']' ∷ t)) ≡ some g
unfolding any_group
any_group-append [] t h = absurd (ground arith)
any_group-append (c ∷ g) t h = ground (arith, until_bracket-append false g t)

path_group-append :
    (g t : Text) → is_nonempty g && every is_inner g ≡ true → path_group (g ++ (b']' ∷ t)) ≡ some g
unfolding path_group
path_group-append [] t h = absurd (ground arith)
path_group-append (c ∷ g) t h = ground (arith, until_bracket-append true g t)

number_of-append :
    (g t : Text) → every is_digit g ≡ true → number_of (g ++ (b']' ∷ t)) ≡ (g, b']' ∷ t)
unfolding number_of
number_of-append [] t h = refl
number_of-append (c ∷ g) t h =
    let digit : is_digit c ≡ true = ground arith in
    rw (number_of-append g t (ground arith), digit) refl

digits-append :
    (g t : Text)
    → is_nonempty g ≡ true
    → every is_digit g ≡ true
    → match_number [] (codes "]") (g ++ (b']' ∷ t)) ≡ some g
unfolding match_number
digits-append [] t h k = absurd (ground arith)
digits-append (c ∷ g) t h k = rw (number_of-append (c ∷ g) t k) refl

group_of-append :
    (p : Pattern) (g t : Text) → is_part (code p g) ≡ true → group_of p (g ++ (b']' ∷ t)) ≡ some g
unfolding group_of is_music
group_of-append local_image g t h = path_group-append g t (ground arith)
group_of-append local_record g t h = path_group-append g t (ground arith)
group_of-append url_image g t h = any_group-append g t (ground arith)
group_of-append url_images g t h = any_group-append g t (ground arith)
group_of-append base64_image g t h = any_group-append g t (ground arith)
group_of-append base64_record g t h = any_group-append g t (ground arith)
group_of-append url_record g t h = any_group-append g t (ground arith)
group_of-append url_records g t h = any_group-append g t (ground arith)
group_of-append markdown g t h = any_group-append g t (ground arith)
group_of-append qqmusic g t h = digits-append g t (ground arith) (ground arith)
group_of-append url_video g t h = any_group-append g t (ground arith)
group_of-append url_videos g t h = any_group-append g t (ground arith)

inner-plain : (g : Text) → every is_inner g ≡ true → contains_byte b'[' g ≡ false
inner-plain [] h = refl
inner-plain (c ∷ g) h = ground (arith, inner-plain g)

plain-append :
    (s t : Text)
    → contains_byte b'[' s ≡ false
    → contains_byte b'[' t ≡ false
    → contains_byte b'[' (s ++ t) ≡ false
plain-append [] t h k = k
plain-append (c ∷ s) t h k = ground (arith, plain-append s t)

module _ (windows : Bool) (p : Pattern) where
  abbrev pub pass : Text → List Text × Text → List Text × Text
  pass s r = (r.0, s ++ r.1)

  no_code : (c : ℕ) (s : Text) → eqb c b'[' ≡ false → match_code windows p (c ∷ s) ≡ none
  unfolding match_code
  no_code c s h =
      let e : has_prefix (c ∷ s) (opening windows p) ≡ false =
        rw (opening-cons windows p, h) refl in
      rw e refl

  pub take_out-plain :
      (s t : Text)
      → contains_byte b'[' s ≡ false
      → take_out windows p 0 (s ++ t) ≡ pass s (take_out windows p 0 t)
  unfolding take_out
  take_out-plain [] t h = refl
  take_out-plain (c ∷ s) t h =
      rw (no_code c (s ++ t) (ground arith), take_out, take_out-plain s t (ground arith)) refl

  take_out-skip :
      (s t : Text) (m n : ℕ)
      → m ≡ length s + n
      → take_out windows p m (s ++ t) ≡ take_out windows p n t
  unfolding take_out
  take_out-skip [] t m n e =
      let same_count : m ≡ n = omega arith in ap (λ k. take_out windows p k t) same_count
  take_out-skip (c ∷ s) t zero n e = absurd (omega arith)
  take_out-skip (c ∷ s) t (suc m) n e = take_out-skip s t m n (omega arith)

  take_out-match :
      (c : ℕ) (s g : Text)
      → match_code windows p (c ∷ s) ≡ some g
      → take_out windows p 0 (c ∷ s)
        ≡ (let r = take_out windows p (length (opening windows p) + length g) s in (g ∷ r.0, r.1))
  unfolding take_out
  take_out-match c s g h = rw (h, take_out) refl

  take_out-none :
      (c : ℕ) (s : Text)
      → match_code windows p (c ∷ s) ≡ none
      → take_out windows p 0 (c ∷ s) ≡ pass (c ∷ []) (take_out windows p 0 s)
  unfolding take_out
  take_out-none c s h = rw (h, take_out) refl

  match_code-append :
      (g t : Text)
      → is_part (code p g) ≡ true
      → match_code windows p (opening windows p ++ (g ++ (b']' ∷ t))) ≡ some g
  unfolding match_code
  match_code-append g t h =
      rw
        (
          has_prefix-append (opening windows p) (g ++ (b']' ∷ t)),
          drop-append (opening windows p) (g ++ (b']' ∷ t)),
        )
        (group_of-append p g t h)

  -- A code of the pattern is taken out.
  pub take_out-own :
      (g t : Text)
      → is_part (code p g) ≡ true
      → take_out windows p 0 (opening windows p ++ (g ++ (b']' ∷ t)))
        ≡ (g ∷ (take_out windows p 0 t).0, (take_out windows p 0 t).1)
  unfolding take_out
  take_out-own g t h =
      let tail = drop 1 (opening windows p) in
      let behind = g ++ (b']' ∷ t) in
      let found : match_code windows p (b'[' ∷ (tail ++ behind)) ≡ some g =
        subst (λ o. match_code windows p (o ++ behind) ≡ some g) (opening-cons windows p)
          (match_code-append g t h) in
      let skipped : take_out windows p (length (opening windows p) + length g) (tail ++ behind)
          ≡ take_out windows p 0 t =
        take_out-skip tail behind _ (length g + 1)
          (omega (arith, ap (length {A = ℕ}) (opening-cons windows p)))
        ∙ take_out-skip g (b']' ∷ t) (length g + 1) 1 refl in
      subst
        (λ o.
          take_out windows p 0 (o ++ behind)
          ≡ (g ∷ (take_out windows p 0 t).0, (take_out windows p 0 t).1))
        (sym (opening-cons windows p))
        (take_out-match b'[' (tail ++ behind) g found ∙ ap (λ r. (g ∷ r.0, r.1)) skipped)

  -- A code of another pattern stays.
  pub take_out-other :
      (q : Pattern) (g t : Text)
      → same p q ≡ false
      → is_part (code q g) ≡ true
      → take_out windows p 0 (opening windows q ++ (g ++ (b']' ∷ t)))
        ≡ (let r = take_out windows p 0 t in (r.0, opening windows q ++ (g ++ (b']' ∷ r.1))))
  unfolding take_out match_code
  take_out-other q g t h k =
      let tail = drop 1 (opening windows q) in
      let behind = g ++ (b']' ∷ t) in
      let r = take_out windows p 0 t in
      let no_prefix : has_prefix (opening windows q ++ behind) (opening windows p) ≡ false =
        differ-append (opening windows q) (opening windows p) behind
          (openings_differ windows p q h) in
      let lost : match_code windows p (opening windows q ++ behind) ≡ none = rw no_prefix refl in
      let lost' : match_code windows p (b'[' ∷ (tail ++ behind)) ≡ none =
        subst (λ o. match_code windows p (o ++ behind) ≡ none) (opening-cons windows q) lost in
      let group_passed = take_out-plain g (b']' ∷ t) (inner-plain g (ground arith)) in
      subst (λ o. take_out windows p 0 (o ++ behind) ≡ (r.0, o ++ (g ++ (b']' ∷ r.1))))
        (sym (opening-cons windows q))
        (take_out-none b'[' (tail ++ behind) lost'
          ∙ (ap (pass (b'[' ∷ [])) (take_out-plain tail behind (tail_open windows q))
              ∙ (ap (λ x. pass (b'[' ∷ []) (pass tail x)) group_passed
                  ∙ ap (λ x. pass (b'[' ∷ []) (pass tail (pass g x)))
                      (take_out-plain (b']' ∷ []) t refl))))
