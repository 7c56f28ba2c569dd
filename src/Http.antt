-- ===== src/Http.antt =====
-- What the program sees of net/http, net/url and encoding/json as a client. The network itself is a
-- function from a URL to what http.Get returns: `none` is an error.
use gensokyo_discord.Prelude.{
  ℕ, ◌&&◌, ◌||◌, ◌+◌, ◌/◌, ◌%◌, ◌-◌, Option, none, some, is_some, List, [], ◌∷◌, ◌++◌, Text, ◌==◌,
  Outcome, ok, err, send_failed, decode_failed, server_error, bad_response, eqb, leb, ltb,
  if◌then◌else◌,
}

-- A value in a decoded reply. A number is the int64 that its float64 truncates to; a number and any
-- other value carry what the verb %v prints for them.
pub data Json : Type 0 where
  text : Text → Json
  number : ℕ → Text → Json
  other : Text → Json

abbrev pub Object : Type 0
Object = List (Text × Json)

-- `body` is `none` where the reply is not a JSON object.
pub record Response : Type 0 where
  pub status : ℕ
  pub body : Option Object

abbrev pub Fetch : Type 0
Fetch = Text → Option Response

-- `response[key]`: of two entries with one key the decoder keeps the later.
unfoldable pub field : Text → Object → Option Json
field key [] = none
field key ((j, v) ∷ rest) =
    let later = field key rest in if is_some later then later else if j == key then some v else none

-- `response[key].(string)` and `response[key].(float64)`
unfoldable pub text_field : Text → Object → Outcome Text
unfolding field
text_field key o = elim (field key o) [
  | none ↦ err bad_response
  | some v ↦ elim v [
    | text s ↦ ok s
    | number n shown ↦ err bad_response
    | other shown ↦ err bad_response
  ]
]

unfoldable pub int_field : Text → Object → Outcome ℕ
unfolding field
int_field key o = elim (field key o) [
  | none ↦ err bad_response
  | some v ↦ elim v [
    | text s ↦ err bad_response
    | number n shown ↦ ok n
    | other shown ↦ err bad_response
  ]
]

-- what the verb %v prints
abbrev pub show_json : Json → Text
show_json (text s) = s
show_json (number n shown) = shown
show_json (other shown) = shown

abbrev checked_status : ℕ → Object → Outcome Object
checked_status status o = if eqb status 200 then ok o else err server_error

abbrev decode_then_status : Option Response → Outcome Object
decode_then_status none = err send_failed
decode_then_status (some r) = elim r.body [
  | none ↦ err decode_failed
  | some o ↦ checked_status r.status o
]

-- The reply is decoded before its status is looked at.
unfoldable pub get_json : Fetch → Text → Outcome Object
get_json fetch url = decode_then_status (fetch url)

abbrev status_then_decode : Option Response → Outcome Object
status_then_decode none = err send_failed
status_then_decode (some r) =
    if eqb r.status 200
    then elim r.body [ none ↦ err decode_failed | some o ↦ ok o ]
    else err server_error

-- The status is looked at before the reply is decoded.
unfoldable pub get_ok_json : Fetch → Text → Outcome Object
get_ok_json fetch url = status_then_decode (fetch url)

abbrev only_status : Option Response → Outcome (Unit {0})
only_status none = err send_failed
only_status (some r) = if eqb r.status 200 then ok tt else err server_error

-- Only the status counts.
unfoldable pub get_status : Fetch → Text → Outcome (Unit {0})
get_status fetch url = only_status (fetch url)

abbrev hex_digit : ℕ → ℕ
hex_digit d = if ltb d 10 then b'0' + d else b'A' + (d - 10)

-- url.QueryEscape for one byte
abbrev escape_byte : ℕ → Text
escape_byte c =
    if (leb b'a' c && leb c b'z')
      || (leb b'A' c && leb c b'Z')
      || (leb b'0' c && leb c b'9')
      || eqb c b'-'
      || eqb c b'_'
      || eqb c b'.'
      || eqb c b'~'
    then c ∷ []
    else if eqb c b' '
    then b'+' ∷ []
    else b'%' ∷ hex_digit (c / 16) ∷ hex_digit (c % 16) ∷ []

unfoldable pub query_escape : Text → Text
query_escape [] = []
query_escape (c ∷ s) = escape_byte c ++ query_escape s

abbrev pair_text : Text × Text → Text
pair_text (k, v) = k ++ (b'=' ∷ v)

-- `k=v&…`, the values as they stand.
unfoldable pub query_text : List (Text × Text) → Text
query_text [] = []
query_text (p ∷ []) = pair_text p
query_text (p ∷ q ∷ ps) = pair_text p ++ (b'&' ∷ query_text (q ∷ ps))

abbrev escaped : List (Text × Text) → List (Text × Text)
escaped [] = []
escaped ((k, v) ∷ ps) = (query_escape k, query_escape v) ∷ escaped ps

-- url.Values.Encode, for values that are listed in the order of their keys.
unfoldable pub encode_values : List (Text × Text) → Text
unfolding query_text query_escape
encode_values ps = query_text (escaped ps)
