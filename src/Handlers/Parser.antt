-- ===== src/Handlers/Parser.antt =====
-- `parseMessageContent` of handlers/message_parser.go: the text of a message and the items found in it.
pub mod Codes
pub mod Broken
pub mod Printed
pub mod Taken
pub mod Found
use gensokyo_discord.Prelude.{
  Bool, Option, none, some, [], ◌∷◌, ◌++◌, Text, ◌==◌, codes, has_prefix, Outcome, ok, panicked,
  ◌>>=◌, ◌||◌, if◌then◌else◌,
}
use gensokyo_discord.Callapi.{
  Value, Values, Members, null, bool, number, string, array, object, nil, cons, read_member,
}
use gensokyo_discord.Handlers.Revert.Mentions.{replace_all}
use Codes.{Items, patterns, take_out_all}

-- `x, _ := m[key].(string)`
abbrev pub text_or_empty : Option Value → Text
text_or_empty none = []
text_or_empty (some null) = []
text_or_empty (some (bool b)) = []
text_or_empty (some (number whole)) = []
text_or_empty (some (string s)) = s
text_or_empty (some (array vs)) = []
text_or_empty (some (object ms)) = []

-- `m["data"].(map[string]interface{})`, which panics for another value and for a missing one
abbrev pub as_object : Option Value → Outcome Members
as_object none = panicked
as_object (some null) = panicked
as_object (some (bool b)) = panicked
as_object (some (number whole)) = panicked
as_object (some (string s)) = panicked
as_object (some (array vs)) = panicked
as_object (some (object ms)) = ok ms

unfoldable pub string_at : Text → Members → Text
unfolding read_member
string_at key ms = text_or_empty (read_member key ms)

unfoldable pub data_of : Members → Outcome Members
unfolding read_member
data_of ms = as_object (read_member (codes "data") ms)

-- The entities of CQ codes in a markdown text.
unfoldable pub unescaped : Text → Text
unfolding replace_all
unescaped s = replace_all (codes "&#44;") (codes ",") (
    replace_all (codes "&#93;") (codes "]")
      (replace_all (codes "&#91;") (codes "[") (replace_all (codes "&amp;") (codes "&") s)))

-- `marshal` is json.Marshal, `unmarshal` is json.Unmarshal into a map (an object, or null for the nil
-- map), `base64` is EncodeToString; `windows` says that GOOS is windows.
module _ (marshal : Value → Option Text) (unmarshal : Text → Option Value) (base64 : Text → Text)
    (windows : Bool) where
  -- In an array a failure leaves the segment out,
  abbrev encoded : Option Text → Option Text
  encoded none = none
  encoded (some bytes) = some (base64 bytes)

  abbrev encoded_map : Option Value → Option Text
  encoded_map none = none
  encoded_map (some v) = encoded (marshal v)

  unfoldable pub markdown_in_array : Value → Option Text
  unfolding unescaped
  markdown_in_array null = none
  markdown_in_array (bool b) = none
  markdown_in_array (number whole) = none
  markdown_in_array (string s) =
      if has_prefix s (codes "base64://") then some s else encoded_map (unmarshal (unescaped s))
  markdown_in_array (array vs) = none
  markdown_in_array (object ms) = encoded (marshal (object ms))

  -- and alone it is logged: the empty bytes or the nil map are encoded.
  abbrev encoded_anyway : Option Text → Text
  encoded_anyway none = base64 []
  encoded_anyway (some bytes) = base64 bytes

  abbrev map_anyway : Option Value → Text
  map_anyway none = encoded_anyway (marshal null)
  map_anyway (some v) = encoded_anyway (marshal v)

  unfoldable pub markdown_alone : Value → Option Text
  unfolding unescaped
  markdown_alone null = some []
  markdown_alone (bool b) = some []
  markdown_alone (number whole) = some []
  markdown_alone (string s) =
      some (if has_prefix s (codes "base64://") then s else map_anyway (unmarshal (unescaped s)))
  markdown_alone (array vs) = some []
  markdown_alone (object ms) = some (encoded_anyway (marshal (object ms)))

  abbrev markdown_item : Option Text → Items
  markdown_item none = []
  markdown_item (some item) = (codes "markdown", item) ∷ []

  abbrev markdown_items : (Value → Option Text) → Option Value → Items
  markdown_items read none = []
  markdown_items read (some v) = markdown_item (read v)

  -- One segment, with the reader of its markdown: the text and the items that it adds.
  unfoldable pub parse_segment : (Value → Option Text) → Members → Outcome (Text × Items)
  unfolding string_at data_of read_member
  parse_segment read ms =
      let kind = string_at (codes "type") ms in
      if kind == codes "text"
      then (data_of ms >>= λ fields. ok (string_at (codes "text") fields, []))
      else if kind == codes "image"
      then (data_of ms >>= λ fields. ok ([], (codes "image", string_at (codes "file") fields) ∷ []))
      else if kind == codes "voice" || kind == codes "record"
      then (data_of ms >>= λ fields.
          ok ([], (codes "record", string_at (codes "file") fields) ∷ []))
      else if kind == codes "at"
      then (data_of ms >>= λ fields. ok ([], (codes "at", string_at (codes "qq") fields) ∷ []))
      else if kind == codes "markdown"
      then (data_of ms >>= λ fields.
          ok ([], markdown_items read (read_member (codes "data") fields)))
      else ok ([], [])

  -- An element that is no object, or has no text for a type, is passed over: the type is then read as
  -- the empty text, which is no known type.
  abbrev pub parse_element : Value → Outcome (Text × Items)
  parse_element null = ok ([], [])
  parse_element (bool b) = ok ([], [])
  parse_element (number whole) = ok ([], [])
  parse_element (string s) = ok ([], [])
  parse_element (array vs) = ok ([], [])
  parse_element (object ms) = parse_segment markdown_in_array ms

  unfoldable pub parse_segments : Values → Outcome (Text × Items)
  unfolding parse_segment markdown_in_array
  parse_segments nil = ok ([], [])
  parse_segments (cons v vs) = parse_element v >>= λ first.
      parse_segments vs >>= λ rest. ok (first.0 ++ rest.0, first.1 ++ rest.1)

  abbrev text_first : Items × Text → Text × Items
  text_first (items, text) = (text, items)

  unfoldable pub parse_message_content : Value → Outcome (Text × Items)
  unfolding parse_segments parse_segment markdown_alone take_out_all
  parse_message_content (string s) = ok (text_first (take_out_all windows patterns s))
  parse_message_content (array vs) = parse_segments vs
  parse_message_content (object ms) = parse_segment markdown_alone ms
  parse_message_content null = ok ([], [])
  parse_message_content (bool b) = ok ([], [])
  parse_message_content (number whole) = ok ([], [])
