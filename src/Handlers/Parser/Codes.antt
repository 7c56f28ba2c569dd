-- ===== src/Handlers/Parser/Codes.antt =====
-- The regular expressions by which `parseMessageContent` of handlers/message_parser.go takes the CQ codes
-- out of a text.
use gensokyo_discord.Prelude.{
  ℕ, zero, suc, ◌+◌, Bool, true, false, not, ◌&&◌, Option, none, some, List, [], ◌∷◌, ◌++◌, Text,
  codes, has_prefix, drop, length, eqb, if◌then◌else◌,
}
use gensokyo_discord.Handlers.Revert.Mentions.{match_number}

-- The entries of `patterns`, in their order.
pub data Pattern : Type 0 where
  local_image : Pattern
  url_image : Pattern
  url_images : Pattern
  base64_image : Pattern
  base64_record : Pattern
  local_record : Pattern
  url_record : Pattern
  url_records : Pattern
  markdown : Pattern
  qqmusic : Pattern
  url_video : Pattern
  url_videos : Pattern

abbrev pub patterns : List Pattern
patterns =
    local_image
    ∷ (url_image
        ∷ (url_images
            ∷ (base64_image
                ∷ (base64_record
                    ∷ (local_record
                        ∷ (url_record
                            ∷ (url_records
                                ∷ (markdown ∷ (qqmusic ∷ (url_video ∷ (url_videos ∷ [])))))))))))

-- the key of `foundItems` for a pattern
unfoldable pub key_of : Pattern → Text
key_of local_image = codes "local_image"
key_of url_image = codes "url_image"
key_of url_images = codes "url_images"
key_of base64_image = codes "base64_image"
key_of base64_record = codes "base64_record"
key_of local_record = codes "local_record"
key_of url_record = codes "url_record"
key_of url_records = codes "url_records"
key_of markdown = codes "markdown"
key_of qqmusic = codes "qqmusic"
key_of url_video = codes "url_video"
key_of url_videos = codes "url_videos"

-- The literal before the group; `windows` says that GOOS is windows.
unfoldable pub opening : Bool → Pattern → Text
opening windows local_image =
    if windows then codes "[CQ:image,file=file:///" else codes "[CQ:image,file=file://"
opening windows url_image = codes "[CQ:image,file=http://"
opening windows url_images = codes "[CQ:image,file=https://"
opening windows base64_image = codes "[CQ:image,file=base64://"
opening windows base64_record = codes "[CQ:record,file=base64://"
opening windows local_record =
    if windows then codes "[CQ:record,file=file:///" else codes "[CQ:record,file=file://"
opening windows url_record = codes "[CQ:record,file=http://"
opening windows url_records = codes "[CQ:record,file=https://"
opening windows markdown = codes "[CQ:markdown,data=base64://"
opening windows qqmusic = codes "[CQ:music,type=qq,id="
opening windows url_video = codes "[CQ:video,file=http://"
opening windows url_videos = codes "[CQ:video,file=https://"

abbrev pub newline : ℕ
newline = 10

abbrev pub prefix_with : ℕ → Option Text → Option Text
prefix_with c none = none
prefix_with c (some s) = some (c ∷ s)

-- What stands before the first closing bracket; without `lines` a line feed ends the search.
unfoldable pub until_bracket : (lines : Bool) → Text → Option Text
until_bracket lines [] = none
until_bracket lines (c ∷ s) =
    let rest = until_bracket lines s in
    if eqb c b']' then some [] else if eqb c newline && not lines then none else prefix_with c rest

-- `([^\]]+?)\]`: a first character that is no bracket.
unfoldable pub path_group : Text → Option Text
unfolding until_bracket
path_group [] = none
path_group (c ∷ s) = if eqb c b']' then none else prefix_with c (until_bracket true s)

-- `(.+?)\]`: a first character that is no line feed, a bracket also.
unfoldable pub any_group : Text → Option Text
unfolding until_bracket
any_group [] = none
any_group (c ∷ s) = if eqb c newline then none else prefix_with c (until_bracket false s)

unfoldable pub group_of : Pattern → Text → Option Text
unfolding any_group path_group match_number
group_of local_image s = path_group s
group_of local_record s = path_group s
group_of url_image s = any_group s
group_of url_images s = any_group s
group_of base64_image s = any_group s
group_of base64_record s = any_group s
group_of url_record s = any_group s
group_of url_records s = any_group s
group_of markdown s = any_group s
group_of qqmusic s = match_number [] (codes "]") s
group_of url_video s = any_group s
group_of url_videos s = any_group s

-- A match at the beginning of a text: its group.
unfoldable pub match_code : Bool → Pattern → Text → Option Text
unfolding opening group_of
match_code windows p s =
    if has_prefix s (opening windows p)
    then group_of p (drop (length (opening windows p)) s)
    else none

-- FindAllStringSubmatch and ReplaceAllString with the empty text: the groups of the matches, and the
-- text without the matches. The first argument counts characters of a match still to be passed over.
unfoldable pub take_out : Bool → Pattern → ℕ → Text → List Text × Text
unfolding match_code opening
take_out windows p skip [] = ([], [])
take_out windows p (suc skip) (c ∷ s) = take_out windows p skip s
take_out windows p zero (c ∷ s) = elim (match_code windows p (c ∷ s)) as (λ _. List Text × Text) [
  | none ↦ let (found, rest) = take_out windows p zero s in (found, c ∷ rest)
  | some group ↦
      let (found, rest) = take_out windows p (length (opening windows p) + length group) s in
      (group ∷ found, rest)
]

-- The map `foundItems` is the list of what was appended to it: under a key it holds the items with that
-- key, in this order.
abbrev pub Items : Type 0
Items = List (Text × Text)

abbrev pub under : Text → List Text → Items
under key [] = []
under key (item ∷ items) = (key, item) ∷ under key items

-- the loop over `patterns`
unfoldable pub take_out_all : Bool → List Pattern → Text → Items × Text
unfolding take_out key_of
take_out_all windows [] s = ([], s)
take_out_all windows (p ∷ ps) s =
    let (found, rest) = take_out windows p 0 s in
    let (items, left) = take_out_all windows ps rest in (under (key_of p) found ++ items, left)
