-- ===== src/Tests/Send.antt =====
-- Events and actions on a concrete database.
use gensokyo_discord.Prelude.{
  ℕ, suc, Bool, true, false, not, ◌||◌, Option, none, some, is_some, [], ◌∷◌, ◌++◌, ◌≡◌, inl, inr,
  refl, Text, ◌==◌, codes, Outcome, ok, err, panicked,
}
use gensokyo_discord.Strconv.{format_int, parse_int, row_bytes, read_row}
use gensokyo_discord.Config.{Settings}
use gensokyo_discord.Tests.Sample.{plain_settings}
use gensokyo_discord.Http.{Fetch}
use gensokyo_discord.Bolt.{Bolt}
use gensokyo_discord.Bolt.Sorted.{sorted_bolt, SortedBucket, sorted_run}
use gensokyo_discord.Bolt.Writes.{put_silently, put_checked}
use gensokyo_discord.Echo.{get_msg_type_by_key, get_mapping}
use gensokyo_discord.Idmap.Keys.{is_plain}
use gensokyo_discord.Idmap.RowId.{generate_row_id}
use gensokyo_discord.Idmap.Ids.{store_id, retrieve_row_by_id}
use gensokyo_discord.Idmap.Sections.{read_config, write_config}
use gensokyo_discord.Idmap.Remote.{store_id_v2, retrieve_row_by_id_v2}
use gensokyo_discord.Idmap.Remote.Config.{read_config_v2, write_config_v2}
use gensokyo_discord.Idmap.Ids.Counter.{empty-IsConsistent}
use gensokyo_discord.Handlers.Parser.{parse_message_content}
use gensokyo_discord.Handlers.Parser.Codes.{
  take_out_all, take_out, match_code, opening, key_of, group_of, until_bracket, any_group,
  path_group,
}
use gensokyo_discord.Handlers.Revert.Mentions.{match_number, number_of}
use gensokyo_discord.Handlers.Reply.{
  compose, generate_reply_message, items_of, add_files, add_urls, add_markdowns,
}
use gensokyo_discord.Callapi.{ActionMessage}
use gensokyo_discord.Handlers.Types.{
  World, Sent, Media, words_only, to_channel, convert_to_int64, get_message_type_by_userid,
  get_message_type_by_groupid, get_message_type_by_userid_v2, get_message_type_by_groupid_v2,
}
use gensokyo_discord.Handlers.Quick.{action_for}
use gensokyo_discord.Handlers.Send.Direct.{Receipt}
use gensokyo_discord.Handlers.Send.Retry.{
  id_of, handle_send_group_msg, handle_send_msg, handle_send_private_msg,
}
use gensokyo_discord.Handlers.Send.Retry.Returns.{IsSpelled, handle_send_msg_returns}
use gensokyo_discord.Handlers.Send.Retry.Loops.{IsUnknown, handle_send_msg_never_returns}
use gensokyo_discord.Handlers.Send.Unsent.{IsUntyped}
use gensokyo_discord.Httpapi.{done, handle_send_group_message, http_group_msg_lost}
use gensokyo_discord.Handlers.Revert.{Incoming, filtered}
use gensokyo_discord.Handlers.Revert.Filters.{is_unlisted, is_black, any_prefix, with_images}
use gensokyo_discord.Handlers.Revert.Blocked.{has_image, refused_message_passes}
use gensokyo_discord.Processor.Events.{
  number, Conversation, group, Report, State, Result, write_quietly,
}
use gensokyo_discord.Processor.Events.Guild.{report_group}
use gensokyo_discord.Processor.Events.Answered.{IsRecorded, event_answered}

abbrev sample_hash : Text → Text
sample_hash id = id ++ codes "a0123456789"

abbrev unplugged : Fetch
unplugged url = none

abbrev opens : Text → Bool
opens user = true

abbrev delivers : Sent → Bool
delivers sent = true

abbrev drawn : Text → Text
drawn key = []

-- Libraries that read nothing.
abbrev media : Media
media = record {
  marshal = λ v. none;
  unmarshal = λ s. none;
  unmarshal_data = λ s. none;
  encode = λ s. s;
  decode = λ s. none;
  read_file = λ s. none;
  get_body = λ s. none;
  windows = false;
}

abbrev none_yet : SortedBucket
none_yet = Bolt.empty sorted_bolt

abbrev bucket_of {ℓ} : {A : Type ℓ} → Outcome (A × SortedBucket) → SortedBucket
bucket_of (ok (_, b)) = b
bucket_of (err e) = none_yet
bucket_of panicked = none_yet

abbrev empty_world : World sorted_bolt
empty_world = record {
  ids = none_yet;
  settings = some none_yet;
  types = record { msg_type_mapping = []; msg_id_mapping = [] };
  counters = [];
  sequences = [];
  outbox = [];
  receipts = [];
}

send_run : Unit {0}
unfolding sorted_run store_id put_silently read_row format_int row_bytes parse_int generate_row_id
    is_plain store_id_v2 retrieve_row_by_id_v2 retrieve_row_by_id read_config_v2 write_config_v2
    read_config write_config id_of convert_to_int64 get_mapping get_message_type_by_userid
    get_message_type_by_groupid get_message_type_by_userid_v2 get_message_type_by_groupid_v2
    get_msg_type_by_key
send_run = tt

abbrev text_to : (to_group to_one : Option Text) → ActionMessage
text_to to_group to_one = action_for (codes "send_msg") to_group to_one (codes "hi")

spelled : IsSpelled (text_to (some []) (some (codes "7")))
unfolding send_run IsSpelled
spelled = inr (inl refl)

handle_send_msg_returns_example :
    (is_some (
        handle_send_group_msg sorted_bolt
          (some plain_settings)
          unplugged
          sample_hash
          opens
          delivers
          true
          drawn
          media
          5
          (text_to (some []) (some (codes "7")))
          empty_world)
      ≡ true)
    × (is_some (
          handle_send_msg sorted_bolt
            (some plain_settings)
            unplugged
            sample_hash
            opens
            delivers
            true
            drawn
            media
            5
            (text_to (some []) (some (codes "7")))
            empty_world)
        ≡ true)
    × (is_some (
          handle_send_private_msg sorted_bolt
            (some plain_settings)
            unplugged
            sample_hash
            opens
            delivers
            true
            drawn
            media
            5
            (text_to (some []) (some (codes "7")))
            empty_world)
        ≡ true)
handle_send_msg_returns_example =
    handle_send_msg_returns sorted_bolt (some plain_settings) unplugged sample_hash opens delivers
      true drawn media (text_to (some []) (some (codes "7"))) empty_world spelled

-- `{"action": "send_msg", "params": {}}`
abbrev bare : ActionMessage
bare = text_to (some []) (some [])

bare-IsUnknown :
    IsUnknown sorted_bolt
      (some plain_settings)
      unplugged
      sample_hash
      opens
      delivers
      true
      drawn
      media
      bare
      0
      []
      []
      empty_world
unfolding send_run
bare-IsUnknown = record { by_user = refl; by_group = refl; user_stored = refl; group_stored = refl }

bare_number : id_of bare ≡ (0, true)
unfolding send_run
bare_number = refl

not_zero : ◌==◌ [] (format_int 0) ≡ false
unfolding send_run
not_zero = refl

handle_send_msg_never_returns_example :
    (handle_send_group_msg sorted_bolt
        (some plain_settings)
        unplugged
        sample_hash
        opens
        delivers
        true
        drawn
        media
        9
        bare
        empty_world
      ≡ none)
    × (handle_send_msg sorted_bolt
          (some plain_settings)
          unplugged
          sample_hash
          opens
          delivers
          true
          drawn
          media
          9
          bare
          empty_world
        ≡ none)
    × (handle_send_private_msg sorted_bolt
          (some plain_settings)
          unplugged
          sample_hash
          opens
          delivers
          true
          drawn
          media
          9
          bare
          empty_world
        ≡ none)
handle_send_msg_never_returns_example =
    handle_send_msg_never_returns sorted_bolt (some plain_settings) unplugged sample_hash opens
      delivers true drawn media bare 0 [] [] refl refl refl bare_number not_zero not_zero
      empty_world bare-IsUnknown 9

untyped :
    IsUntyped sorted_bolt
      (some plain_settings)
      unplugged
      sample_hash
      opens
      delivers
      true
      drawn
      media
      (action_for (codes "send_group_msg") (some (format_int 7)) none (codes "hi"))
      empty_world
      (format_int 7)
unfolding send_run
untyped = record {
  nobody = refl;
  of_group = refl;
  no_echo = refl;
  in_memory = refl;
  in_store = refl;
  last = refl;
}

http_group_msg_lost_example :
    (v : World sorted_bolt) × (handle_send_group_message sorted_bolt
        (some plain_settings)
        unplugged
        sample_hash
        opens
        delivers
        drawn
        media
        (suc 0)
        (some (7, codes "hi"))
        empty_world
      ≡ some (done none, v))
    × (v.outbox ≡ empty_world.outbox)
http_group_msg_lost_example =
    http_group_msg_lost sorted_bolt (some plain_settings) unplugged sample_hash opens delivers drawn
      media 0 7 (codes "hi") empty_world untyped

abbrev strict : Option Settings
strict = some (record plain_settings { black_prefix_mode = true; black_prefixs = codes "bad" ∷ [] })

abbrev picture : Incoming
picture = record {
  id = codes "31";
  channel_id = codes "11";
  guild_id = codes "21";
  author_id = codes "41";
  username = codes "ann";
  nick = codes "ann";
  avatar = [];
  content = codes "bad words";
  attachments =
      record {
        content_type = codes "image/png";
        filename = codes "a.png";
        url = codes "http://a/b";
      }
      ∷ [];
  timestamp = 0;
  is_guild = true;
}

refused_by_black :
    (is_unlisted strict [] 0 (codes "bad words") || is_black strict (codes "bad words")) ≡ true
unfolding is_unlisted is_black any_prefix
refused_by_black = refl

refused_message_passes_example :
    (((filtered sorted_bolt strict unplugged sample_hash opens delivers [] 0 picture
          (codes "bad words")
          empty_world).0
        == [])
      ≡ not (has_image picture.attachments))
    × ((filtered sorted_bolt strict unplugged sample_hash opens delivers [] 0 picture
          (codes "bad words")
          empty_world).0
        ≡ with_images picture.attachments [])
refused_message_passes_example =
    refused_message_passes sorted_bolt strict unplugged sample_hash opens delivers [] 0 picture
      empty_world (codes "bad words") refused_by_black

abbrev stored_in : Text → SortedBucket → Outcome (ℕ × SortedBucket)
stored_in id b = store_id sorted_bolt sample_hash true id b

abbrev row_of : Outcome (ℕ × SortedBucket) → ℕ
row_of (ok (row, _)) = row
row_of (err e) = 0
row_of panicked = 0

abbrev with_channel : SortedBucket
with_channel = bucket_of (stored_in picture.channel_id none_yet)

abbrev with_author : SortedBucket
with_author = bucket_of (stored_in picture.author_id with_channel)

abbrev with_message : SortedBucket
with_message = bucket_of (stored_in picture.id with_author)

abbrev channel_row : ℕ
channel_row = row_of (stored_in picture.channel_id none_yet)

abbrev author_row : ℕ
author_row = row_of (stored_in picture.author_id with_channel)

abbrev message_row : ℕ
message_row = row_of (stored_in picture.id with_author)

abbrev before_event : State sorted_bolt
before_event = record {
  world = record empty_world { ids = with_message };
  commands = [];
  notices = [];
  records = [];
}

abbrev reported :
    Result sorted_bolt plain_settings unplugged sample_hash none
      (true, true)
      opens
      delivers
      (codes "9")
      (codes "77")
      1
      0
reported =
    report_group sorted_bolt plain_settings unplugged sample_hash none (true, true) opens delivers
      (codes "9") (codes "77") 1 0 channel_row author_row message_row (codes "hi") picture
      before_event

abbrev no_report : Report
no_report = record {
  conversation = Conversation.private;
  raw_message = [];
  message_id = number 0;
  user_id = number 0;
  sender_id = 0;
  nickname = [];
  role = [];
  real_message_type = [];
  is_binded_user_id = false;
  echo = [];
}

abbrev event_of : Outcome (Option Report × State sorted_bolt) → Report × State sorted_bolt
event_of (ok (some r, st)) = (r, st)
event_of (ok (none, st)) = (no_report, st)
event_of (err e) = (no_report, before_event)
event_of panicked = (no_report, before_event)

abbrev answer : ActionMessage
answer = action_for (codes "send_group_msg") (some (format_int channel_row)) none (codes "hello")

was_reported : reported ≡ ok (some (event_of reported).0, (event_of reported).1)
unfolding send_run report_group write_quietly put_checked
was_reported = refl

recorded :
    IsRecorded sorted_bolt plain_settings unplugged sample_hash none
      (true, true)
      opens
      delivers
      (codes "9")
      (codes "77")
      1
      0
      channel_row
      author_row
      message_row
      (codes "hi")
      picture
      before_event
      none_yet
      with_channel
      with_author
unfolding send_run
recorded = record {
  local = refl;
  hashed = refl;
  consistent = empty-IsConsistent sorted_bolt;
  plain_channel = refl;
  plain_author = refl;
  plain_message = refl;
  channel_stored = refl;
  author_stored = refl;
  message_stored = refl;
}

hello_read :
    compose (some plain_settings) media answer.params.message ≡ ok (words_only (codes "hello"))
unfolding compose parse_message_content take_out_all take_out match_code opening key_of group_of
    until_bracket any_group path_group match_number number_of generate_reply_message items_of
    add_files add_urls add_markdowns
hello_read = refl

event_answered_example :
    ((bound : Bool) × ((event_of reported).0.conversation ≡ group (number channel_row) bound))
    × ((receipt : Receipt) × (v : World sorted_bolt) × (handle_send_group_msg sorted_bolt
            (some plain_settings)
            unplugged
            sample_hash
            opens
            delivers
            true
            drawn
            media
            (suc 0)
            answer
            (event_of reported).1.world
          ≡ some (ok receipt, v))
        × (v.outbox ≡ [] ++ (to_channel (codes "11") (words_only (codes "hello")) ∷ [])))
unfolding get_mapping
event_answered_example =
    event_answered sorted_bolt plain_settings unplugged sample_hash none (true, true) opens delivers
      (codes "9") (codes "77") 1 0 channel_row author_row message_row (codes "hi") picture
      before_event none_yet with_channel with_author true drawn media answer
      (words_only (codes "hello")) (event_of reported).0 (event_of reported).1 0 was_reported
      recorded refl refl refl refl refl hello_read refl refl
