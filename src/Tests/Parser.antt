-- ===== src/Tests/Parser.antt =====
-- The parser of messages on concrete messages.
use gensokyo_discord.Prelude.{
  true, false, Option, none, some, List, [], ◌∷◌, ◌≡◌, refl, Text, codes, ok,
}
use gensokyo_discord.Callapi.{Value, string, array, nil, cons, object, member, end, read_member}
use gensokyo_discord.Handlers.Parser.Codes.{url_image, qqmusic, key_of}
use gensokyo_discord.Handlers.Parser.Printed.{Part, plain, code, printed, same, is_music}
use gensokyo_discord.Handlers.Parser.Broken.{
  verdict, is_broken_message, any_broken, is_broken, parse_message_content_panics,
}
use gensokyo_discord.Handlers.Parser.Found.{words, items_in, groups, parse_message_content-printed}
use gensokyo_discord.Handlers.Parser.{string_at, parse_message_content}

-- A library that marshals everything as an empty object and reads nothing.
abbrev marshal : Value → Option Text
marshal v = some (codes "{}")

abbrev unmarshal : Text → Option Value
unmarshal s = none

abbrev base64 : Text → Text
base64 s = s

abbrev bare_image : Value
bare_image = array (cons (object (member (codes "type") (string (codes "image")) end)) nil)

parse_message_content_panics_example :
    verdict (parse_message_content marshal unmarshal base64 false bare_image) ≡ some true
unfolding is_broken_message any_broken is_broken string_at read_member
parse_message_content_panics_example =
    parse_message_content_panics marshal unmarshal base64 false bare_image

abbrev song : List Part
song =
    plain (codes "a ")
    ∷ (code qqmusic (codes "12")
        ∷ (plain (codes "b")
            ∷ (code url_image (codes "x/y.png") ∷ (code qqmusic (codes "7") ∷ []))))

parse_message_content-printed_example :
    parse_message_content marshal unmarshal base64 false (Value.string (printed false song))
    ≡ ok (
      codes "a b",
      (codes "url_image", codes "x/y.png")
          ∷ ((codes "qqmusic", codes "12") ∷ ((codes "qqmusic", codes "7") ∷ [])),
    )
unfolding words items_in groups same key_of is_music
parse_message_content-printed_example =
    parse_message_content-printed false marshal unmarshal base64 song refl
