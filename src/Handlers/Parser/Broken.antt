-- ===== src/Handlers/Parser/Broken.antt =====
-- Which messages `parseMessageContent` cannot read.
use gensokyo_discord.Prelude.{
  Bool, true, false, ◌&&◌, ◌||◌, Option, none, some, [], ◌++◌, ◌≡◌, refl, Text, ◌==◌, codes,
  Outcome, ok, err, panicked, ◌>>=◌, if◌then◌else◌, arith,
}
use gensokyo_discord.Callapi.{
  Value, Values, Members, null, bool, number, string, array, object, nil, cons, read_member,
}
use gensokyo_discord.Handlers.Parser.Codes.{Items}
use gensokyo_discord.Handlers.Parser.{
  as_object, string_at, data_of, parse_segment, parse_element, parse_segments,
  parse_message_content,
}

-- Whether a result is a panic; an error is neither.
abbrev pub verdict {ℓ} : {A : Type ℓ} → Outcome A → Option Bool
verdict (ok a) = some false
verdict (err e) = none
verdict panicked = some true

abbrev lacks_object : Option Value → Bool
lacks_object none = true
lacks_object (some null) = true
lacks_object (some (bool b)) = true
lacks_object (some (number whole)) = true
lacks_object (some (string s)) = true
lacks_object (some (array vs)) = true
lacks_object (some (object ms)) = false

verdict-as_object : (o : Option Value) → verdict (as_object o) ≡ some (lacks_object o)
verdict-as_object none = refl
verdict-as_object (some null) = refl
verdict-as_object (some (bool b)) = refl
verdict-as_object (some (number whole)) = refl
verdict-as_object (some (string s)) = refl
verdict-as_object (some (array vs)) = refl
verdict-as_object (some (object ms)) = refl

-- A segment of a type that is read, whose data is missing or no object.
unfoldable pub is_broken : Members → Bool
unfolding read_member string_at
is_broken ms =
    let kind = string_at (codes "type") ms in
    (kind == codes "text"
      || kind == codes "image"
      || kind == codes "voice"
      || kind == codes "record"
      || kind == codes "at"
      || kind == codes "markdown")
    && lacks_object (read_member (codes "data") ms)

abbrev pub is_broken_element : Value → Bool
unfolding is_broken
is_broken_element null = false
is_broken_element (bool b) = false
is_broken_element (number whole) = false
is_broken_element (string s) = false
is_broken_element (array vs) = false
is_broken_element (object ms) = is_broken ms

unfoldable pub any_broken : Values → Bool
unfolding is_broken
any_broken nil = false
any_broken (cons v vs) = is_broken_element v || any_broken vs

unfoldable pub is_broken_message : Value → Bool
unfolding any_broken is_broken
is_broken_message null = false
is_broken_message (bool b) = false
is_broken_message (number whole) = false
is_broken_message (string s) = false
is_broken_message (array vs) = any_broken vs
is_broken_message (object ms) = is_broken ms

-- Five readers of the data under six tests: all of them need the data.
verdict-chain :
    (t i v r a m lacks : Bool) (o : Outcome Members) (f g h k l : Members → Text × Items)
    → verdict o ≡ some lacks
    → verdict (
        if t
        then (o >>= λ d. ok (f d))
        else if i
        then (o >>= λ d. ok (g d))
        else if v || r
        then (o >>= λ d. ok (h d))
        else if a
        then (o >>= λ d. ok (k d))
        else if m
        then (o >>= λ d. ok (l d))
        else ok ([], []))
      ≡ some ((t || i || v || r || a || m) && lacks)
verdict-chain t i v r a m lacks (ok d) f g h k l e = ground arith
verdict-chain t i v r a m lacks (err why) f g h k l e = absurd (ground arith)
verdict-chain t i v r a m lacks panicked f g h k l e = ground arith

verdict-both :
    (o p : Outcome (Text × Items)) (b c : Bool)
    → verdict o ≡ some b
    → verdict p ≡ some c
    → verdict {A = Text × Items}
        (o >>= λ first. p >>= λ rest. ok (first.0 ++ rest.0, first.1 ++ rest.1))
      ≡ some (b || c)
verdict-both (ok a) (ok d) b c h k = ground arith
verdict-both (ok a) (err e) b c h k = absurd (ground arith)
verdict-both (ok a) panicked b c h k = ground arith
verdict-both (err e) p b c h k = absurd (ground arith)
verdict-both panicked p b c h k = ground arith

module _ (marshal : Value → Option Text) (unmarshal : Text → Option Value) (base64 : Text → Text)
    (windows : Bool) where
  segment_lem :
      (read : Value → Option Text) (ms : Members)
      → verdict (parse_segment marshal unmarshal base64 windows read ms) ≡ some (is_broken ms)
  unfolding parse_segment is_broken data_of string_at
  segment_lem read ms =
      verdict-chain (string_at (codes "type") ms == codes "text") _ _ _ _ _ _ (data_of ms) _ _ _ _ _
        (verdict-as_object (read_member (codes "data") ms))

  element_lem :
      (v : Value)
      → verdict (parse_element marshal unmarshal base64 windows v) ≡ some (is_broken_element v)
  unfolding is_broken_element
  element_lem null = refl
  element_lem (bool b) = refl
  element_lem (number whole) = refl
  element_lem (string s) = refl
  element_lem (array vs) = refl
  element_lem (object ms) = segment_lem _ ms

  segments_lem :
      (vs : Values)
      → verdict (parse_segments marshal unmarshal base64 windows vs) ≡ some (any_broken vs)
  unfolding parse_segments any_broken
  segments_lem nil = refl
  segments_lem (cons v vs) =
      verdict-both _ (parse_segments marshal unmarshal base64 windows vs) _ _ (element_lem v)
        (segments_lem vs)

  -- The parser never returns an error, and it panics on the messages with a segment of a type that it
  -- reads whose data is missing or no object, and on no other.
  pub parse_message_content_panics :
      (message : Value)
      → verdict (parse_message_content marshal unmarshal base64 windows message)
        ≡ some (is_broken_message message)
  unfolding parse_message_content is_broken_message
  parse_message_content_panics null = refl
  parse_message_content_panics (bool b) = refl
  parse_message_content_panics (number whole) = refl
  parse_message_content_panics (string s) = refl
  parse_message_content_panics (array vs) = segments_lem vs
  parse_message_content_panics (object ms) = segment_lem _ ms
