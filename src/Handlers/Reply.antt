-- ===== src/Handlers/Reply.antt =====
-- `GenerateReplyMessage`, `ConvertToDiscordMessage` and `ConvertQQBotToMarkdown` of
-- handlers/send_guild_channel_msg.go: the message for Discord, from the text and the items that
-- `parseMessageContent` has found.
use gensokyo_discord.Prelude.{
  ℕ, zero, suc, ◌+◌, ◌-◌, Option, none, some, List, [], ◌∷◌, ◌++◌, ◌≡◌, refl, Text, ◌==◌, codes,
  has_prefix, drop, length, eqb, Outcome, ok, ◌>>=◌, if◌then◌else◌,
}
use mathlib.Core.List.{map}
use gensokyo_discord.Config.{Settings, get_url_pic_transfer}
use gensokyo_discord.Callapi.{Value}
use gensokyo_discord.Handlers.Types.{
  Component, link_button, primary_button, Reply, words_only, Media,
}
use gensokyo_discord.Handlers.Revert.Mentions.{match_number}
use gensokyo_discord.Handlers.Parser.Codes.{Items}
use gensokyo_discord.Handlers.Parser.{parse_message_content}

-- The items under a key of `foundItems`.
unfoldable pub items_of : Text → Items → List Text
items_of key [] = []
items_of key ((k, item) ∷ items) =
    let rest = items_of key items in if k == key then item ∷ rest else rest

-- `[^']+` behind a literal: the group, and the text from the quote on.
unfoldable pub until_quote : Text → Option (Text × Text)
until_quote [] = none
until_quote (c ∷ s) =
    if eqb c b'\'' then some ([], c ∷ s) else (elim (until_quote s) as (λ _. Option (Text × Text)) [
      | none ↦ none
      | some (group, rest) ↦ some (c ∷ group, rest)
    ])

unfoldable pub match_quoted : Text → Text → Option (Text × Text)
unfolding until_quote
match_quoted front s =
    if has_prefix s front
    then (elim (until_quote (drop (length front) s)) as (λ _. Option (Text × Text)) [
      | none ↦ none
      | some ([], rest) ↦ none
      | some (c ∷ group, rest) ↦ some (c ∷ group, rest)
    ])
    else none

-- The tag `<qqbot-cmd-input ... />` at the beginning of a text: what it shows, and the text behind it.
unfoldable pub match_cmd_input : Text → Option (Text × Text)
unfolding match_quoted
match_cmd_input s =
    elim (match_quoted (codes "<qqbot-cmd-input text='") s) as (λ _. Option (Text × Text)) [
      | none ↦ none
      | some (group, shown) ↦
          elim (match_quoted (codes "' show='") shown) as (λ _. Option (Text × Text)) [
            | none ↦ none
            | some (_, referred) ↦
                elim (match_quoted (codes "' reference='") referred)
                  as (λ _. Option (Text × Text)) [
                    | none ↦ none
                    | some (_, end) ↦
                        (if has_prefix end (codes "' />") then some (group, drop 4 end) else none)
                  ]
          ]
    ]

-- The first argument of both counts characters of a tag still to be passed over.
unfoldable pub bold_inputs : ℕ → Text → Text
unfolding match_cmd_input
bold_inputs skip [] = []
bold_inputs (suc skip) (c ∷ s) = bold_inputs skip s
bold_inputs zero (c ∷ s) = elim (match_cmd_input (c ∷ s)) as (λ _. Text) [
  | none ↦ c ∷ bold_inputs zero s
  | some (group, rest) ↦
      codes "**" ++ (group ++ (codes "**" ++ bold_inputs (length s - length rest) s))
]

unfoldable pub mention_users : ℕ → Text → Text
unfolding match_number
mention_users skip [] = []
mention_users (suc skip) (c ∷ s) = mention_users skip s
mention_users zero (c ∷ s) =
    elim (match_number (codes "<qqbot-at-user id=\"") (codes "\" />") (c ∷ s)) as (λ _. Text) [
      | none ↦ c ∷ mention_users zero s
      | some user ↦ codes "<@" ++ (user ++ (codes ">" ++ mention_users (length user + 22) s))
    ]

unfoldable pub convert_qqbot_to_markdown : Text → Text
unfolding bold_inputs mention_users
convert_qqbot_to_markdown s = mention_users 0 (bold_inputs 0 s)

-- A button that leads to the one URL that is tested for, and any other one.
abbrev button_of : Text × Text → Component
button_of (label, data_text) =
    if data_text == codes "https://gskllm.com"
    then link_button label data_text
    else primary_button label data_text

-- An empty markdown is left out, which is the same as its conversion.
unfoldable pub convert_to_discord_message : Media → Text → Option Reply
unfolding convert_qqbot_to_markdown
convert_to_discord_message media json = elim (media.unmarshal_data json) as (λ _. Option Reply) [
  | none ↦ none
  | some d ↦ some (record (words_only (convert_qqbot_to_markdown d.markdown)) {
    components = map (map button_of) d.rows;
  })
]

module _ (s : Option Settings) (media : Media) where
  abbrev add_file : Option Text → Reply → Reply
  add_file none r = r
  add_file (some content) r = record r { files = r.files ++ (content ∷ []) }

  -- The four loops over pictures, the path or URL by `read` or by its embedding.
  unfoldable pub add_files : (Text → Option Text) → List Text → Reply → Reply
  add_files read [] r = r
  add_files read (item ∷ items) r = add_files read items (add_file (read item) r)

  unfoldable pub add_urls : Text → List Text → Reply → Reply
  add_urls scheme [] r = r
  add_urls scheme (url ∷ urls) r = add_urls scheme urls (
      if get_url_pic_transfer s
      then add_file (media.get_body (scheme ++ url)) r
      else record r { embeds = r.embeds ++ ((scheme ++ url) ∷ []) })

  abbrev add_converted : Option Reply → Reply → Reply
  add_converted none r = r
  add_converted (some d) r = record r {
    content = r.content ++ (10 ∷ d.content);
    components = r.components ++ d.components;
  }

  abbrev decoded : Text → Option Reply
  unfolding convert_to_discord_message
  decoded item = elim (media.decode item) as (λ _. Option Reply) [
    | none ↦ none
    | some json ↦ convert_to_discord_message media json
  ]

  unfoldable pub add_markdowns : List Text → Reply → Reply
  unfolding convert_to_discord_message
  add_markdowns [] r = r
  add_markdowns (item ∷ items) r = add_markdowns items (add_converted (decoded item) r)

  -- The Go function has an error among its results, and never returns one.
  unfoldable pub generate_reply_message : Items → Text → Reply
  unfolding items_of add_files add_urls add_markdowns
  generate_reply_message items text =
      let r1 = add_files media.read_file (items_of (codes "local_image") items) (words_only text) in
      let r2 = add_urls (codes "http://") (items_of (codes "url_image") items) r1 in
      let r3 = add_urls (codes "https://") (items_of (codes "url_images") items) r2 in
      let r4 = add_files media.decode (items_of (codes "base64_image") items) r3 in
      add_markdowns (items_of (codes "markdown") items) r4

  -- What a sending action makes of the content of its message.
  unfoldable pub compose : Value → Outcome Reply
  unfolding generate_reply_message
  compose message =
      parse_message_content media.marshal media.unmarshal media.encode media.windows message
      >>= λ r. ok (generate_reply_message r.1 r.0)

  -- A text without items stays as it is.
  generate_reply_message_plain : (text : Text) → generate_reply_message [] text ≡ words_only text
  unfolding generate_reply_message items_of add_files add_urls add_markdowns
  generate_reply_message_plain text = refl
