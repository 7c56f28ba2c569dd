-- ===== src/Handlers/Types.antt =====
-- How the sending actions of handlers find out what kind of conversation an identifier belongs to, and
-- which message to reply to: the functions of handlers/message_parser.go and handlers/send_msg.go. An
-- identifier is a string or nil here, the two that the program passes.
use gensokyo_discord.Prelude.{
  ℕ, ◌-◌, Bool, true, false, Option, none, some, List, [], ◌∷◌, ◌++◌, Text, codes, Outcome, ok, err,
  panicked, every, eqb, if◌then◌else◌,
}
use gensokyo_discord.Strconv.{parse_int, format_int, is_digit, two_63}
use gensokyo_discord.Config.{Settings, get_app_id_str}
use gensokyo_discord.Http.{Fetch}
use gensokyo_discord.Bolt.{Bolt}
use gensokyo_discord.Idmap.Remote
use gensokyo_discord.Idmap.Remote.Config as Remote_config
use gensokyo_discord.Echo.{EchoMapping, Counters, Sequences, get_msg_type_by_key, get_msg_id_by_key}
use gensokyo_discord.Callapi.{Value}

-- `discordgo.Button` in its two uses: the label with a URL, and with a custom identifier.
pub data Component : Type 0 where
  link_button : (label url : Text) → Component
  primary_button : (label custom_id : Text) → Component

-- `discordgo.MessageSend`: the text, the contents of the files, the URLs of the embedded pictures, and the
-- rows of buttons.
pub record Reply : Type 0 where
  pub content : Text
  pub files : List Text
  pub embeds : List Text
  pub components : List (List Component)

abbrev pub words_only : Text → Reply
words_only text = record { content = text; files = []; embeds = []; components = [] }

-- What json.Unmarshal makes of a `MessageData`: the markdown, and the label and the data of each button.
pub record MessageData : Type 0 where
  pub markdown : Text
  pub rows : List (List (Text × Text))

-- The libraries by which a message is read and made: `marshal` is json.Marshal, `unmarshal` is
-- json.Unmarshal into a map (an object, or null for the nil map) and `unmarshal_data` into a
-- `MessageData`, `encode` and `decode` are those of base64.StdEncoding, `read_file` is os.ReadFile and
-- `get_body` is http.Get with io.ReadAll; `windows` says that GOOS is windows.
pub record Media : Type 0 where
  pub marshal : Value → Option Text
  pub unmarshal : Text → Option Value
  pub unmarshal_data : Text → Option MessageData
  pub encode : Text → Text
  pub decode : Text → Option Text
  pub read_file : Text → Option Text
  pub get_body : Text → Option Text
  pub windows : Bool

-- A message that went out to Discord: to a channel, or to a user's private channel.
pub data Sent : Type 0 where
  to_channel : Text → Reply → Sent
  to_user : Text → Reply → Sent

-- What the sending actions read and change: the two buckets of the database, the maps of echo, the
-- messages that went out, and the echoes of the receipts that the client was sent.
pub record World (bolt : Bolt) : Type 0 where
  pub ids : Bolt.Bucket bolt
  pub settings : Option (Bolt.Bucket bolt)
  pub types : EchoMapping
  pub counters : Counters
  pub sequences : Sequences
  pub outbox : List Sent
  pub receipts : List (Option Text)

-- The value that strconv.ParseInt returns beside an error: the nearest int64 where the text is a number
-- that is out of range, otherwise 0.
abbrev nearest : Bool → Text → ℕ
nearest minus [] = 0
nearest minus (c ∷ s) = if every is_digit (c ∷ s) then (if minus then two_63 else two_63 - 1) else 0

unfoldable pub beside_error : Text → ℕ
beside_error [] = 0
beside_error (c ∷ s) =
    if eqb c b'+'
    then nearest false s
    else if eqb c b'-'
    then nearest true s
    else nearest false (c ∷ s)

-- `ConvertToInt64`: the number, and whether there was no error.
unfoldable pub convert_to_int64 : Option Text → ℕ × Bool
unfolding parse_int beside_error
convert_to_int64 none = (0, false)
convert_to_int64 (some s) = elim (parse_int s) as (λ _. ℕ × Bool) [
  | ok n ↦ (n, true)
  | err e ↦ (beside_error s, false)
  | panicked ↦ (0, false)
]

-- An error of a lookup is logged, and its value is the empty text.
abbrev pub or_empty : Outcome Text → Outcome Text
or_empty (ok s) = ok s
or_empty (err e) = ok []
or_empty panicked = panicked

-- The second lookup counts where the first finds the empty text.
abbrev pub or_else : Outcome Text → Outcome Text → Outcome Text
or_else (ok []) next = next
or_else (ok (c ∷ s)) next = ok (c ∷ s)
or_else (err e) next = err e
or_else panicked next = panicked

abbrev by_key : Text → Option Text → EchoMapping → Text
by_key app none types = []
by_key app (some id) types = get_msg_type_by_key (app ++ (b'_' ∷ id)) types

unfoldable pub get_message_type_by_userid : Text → Option Text → EchoMapping → Text
unfolding get_msg_type_by_key
get_message_type_by_userid app user types = by_key app user types

unfoldable pub get_message_type_by_groupid : Text → Option Text → EchoMapping → Text
unfolding get_msg_type_by_key
get_message_type_by_groupid app group types = by_key app group types

-- `if echoStr, ok := message.Echo.(string); ok`
unfoldable pub type_of_echo : Option Text → EchoMapping → Text
unfolding get_msg_type_by_key
type_of_echo none types = []
type_of_echo (some key) types = get_msg_type_by_key key types

unfoldable pub id_of_echo : Option Text → EchoMapping → Text
unfolding get_msg_id_by_key
id_of_echo none types = []
id_of_echo (some key) types = get_msg_id_by_key key types

module _ (bolt : Bolt) (s : Option Settings) (fetch : Fetch) where
  abbrev stored : Option Text → World bolt → Outcome Text
  stored none w = ok []
  stored (some id) w =
      or_empty (Remote_config.read_config_v2 bolt s fetch id (codes "type") w.settings)

  unfoldable pub get_message_type_by_userid_v2 : Option Text → World bolt → Outcome Text
  get_message_type_by_userid_v2 user w = stored user w

  unfoldable pub get_message_type_by_groupid_v2 : Option Text → World bolt → Outcome Text
  get_message_type_by_groupid_v2 group w = stored group w

  -- The message to reply to, by the row of an identifier, which is stored if it is new.
  unfoldable pub get_message_id_by_userid_or_groupid :
      (Text → Text) → Text → World bolt → Outcome (Text × World bolt)
  unfolding get_msg_id_by_key
  get_message_id_by_userid_or_groupid md5_hex id w =
      elim (Remote.store_id_v2 bolt s fetch md5_hex id w.ids)
        as (λ _. Outcome (Text × World bolt)) [
          | ok stored ↦ ok (
            get_msg_id_by_key (get_app_id_str s ++ (b'_' ∷ format_int (stored.0))) w.types,
            record w { ids = stored.1 },
          )
          | err e ↦ ok ([], w)
          | panicked ↦ panicked
        ]
