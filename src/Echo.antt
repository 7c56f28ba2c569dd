-- ===== src/Echo.antt =====
-- echo/echo.go and echo/messageidmap.go: the maps from OneBot's echoes and groups to messages, the
-- stack of upload times, and the messages of the last five minutes. The global variables are the
-- states that the functions take and return; a map is a list with the latest entry first.
pub mod Laws
use gensokyo_discord.Prelude.{
  ℕ, ◌+◌, ◌-◌, ◌%◌, Bool, true, false, Option, none, some, List, [], ◌∷◌, ◌++◌, Text, ◌==◌, codes,
  has_prefix, eqb, ltb, length, if◌then◌else◌,
}
use gensokyo_discord.Strconv.{format_int}

abbrev pub Map : Type 0
Map = List (Text × Text)

-- a read of a map of strings: the empty string where the key is missing
unfoldable pub read_map : Map → Text → Text
read_map [] key = []
read_map ((k, v) ∷ rest) key = if k == key then v else read_map rest key

pub record EchoMapping : Type 0 where
  pub msg_type_mapping : Map
  pub msg_id_mapping : Map

abbrev pub generate_key : Text → ℕ → Text
generate_key appid s = appid ++ (b'_' ∷ format_int s)

abbrev pub generate_key_v2 : Text → ℕ → ℕ → Text
generate_key_v2 appid groupid userid =
    appid ++ (b'_' ∷ (format_int groupid ++ (b'_' ∷ format_int userid)))

unfoldable pub add_msg_type : Text → ℕ → Text → EchoMapping → EchoMapping
add_msg_type appid s msg_type e = record e {
  msg_type_mapping = (generate_key appid s, msg_type) ∷ e.msg_type_mapping;
}

unfoldable pub add_msg_id : Text → ℕ → Text → EchoMapping → EchoMapping
add_msg_id appid s msg_id e = record e {
  msg_id_mapping = (generate_key appid s, msg_id) ∷ e.msg_id_mapping;
}

unfoldable pub add_msg_id_v2 : Text → ℕ → ℕ → Text → EchoMapping → EchoMapping
add_msg_id_v2 appid groupid userid msg_id e = record e {
  msg_id_mapping = (generate_key_v2 appid groupid userid, msg_id) ∷ e.msg_id_mapping;
}

unfoldable pub get_msg_type_by_key : Text → EchoMapping → Text
unfolding read_map
get_msg_type_by_key key e = read_map e.msg_type_mapping key

unfoldable pub get_msg_id_by_key : Text → EchoMapping → Text
unfolding read_map
get_msg_id_by_key key e = read_map e.msg_id_mapping key

-- The counters of the sending actions, by identifier; an int is its bit pattern, and 0 stands for a
-- missing key.
abbrev pub Counters : Type 0
Counters = List (ℕ × ℕ)

unfoldable pub get_mapping : Counters → ℕ → ℕ
get_mapping [] key = 0
get_mapping ((k, v) ∷ rest) key = if eqb k key then v else get_mapping rest key

unfoldable pub add_mapping : ℕ → ℕ → Counters → Counters
add_mapping key value counters = (key, value) ∷ counters

-- The sequence numbers of replies, by message.
abbrev pub Sequences : Type 0
Sequences = List (Text × ℕ)

unfoldable pub get_mapping_seq : Sequences → Text → ℕ
get_mapping_seq [] key = 0
get_mapping_seq ((k, v) ∷ rest) key = if k == key then v else get_mapping_seq rest key

unfoldable pub add_mapping_seq : Text → ℕ → Sequences → Sequences
add_mapping_seq key value seqs = (key, value) ∷ seqs

-- the map of upload times, by key
unfoldable pub get_mapping_file_time_limit : Sequences → Text → ℕ
unfolding get_mapping_seq
get_mapping_file_time_limit times key = get_mapping_seq times key

unfoldable pub add_mapping_file_time_limit : Text → ℕ → Sequences → Sequences
unfolding add_mapping_seq
add_mapping_file_time_limit key value times = add_mapping_seq key value times

abbrev without_first : List ℕ → List ℕ
without_first [] = []
without_first (v ∷ rest) = rest

-- The oldest time falls off when there are more than ten.
unfoldable pub add_file_time_limit : ℕ → List ℕ → List ℕ
add_file_time_limit value stack =
    let pushed = stack ++ (value ∷ []) in
    if ltb 10 (length pushed) then without_first pushed else pushed

-- The time that was added last; 0 where there is none.
unfoldable pub get_file_time_limit : List ℕ → ℕ
get_file_time_limit [] = 0
get_file_time_limit (v ∷ []) = v
get_file_time_limit (v ∷ w ∷ rest) = get_file_time_limit (w ∷ rest)

-- A message of a group and the time, in nanoseconds, when it came.
pub record MessageRecord : Type 0 where
  pub message_id : Text
  pub timestamp : ℕ

abbrev pub Records : Type 0
Records = List (Text × MessageRecord)

-- One list for all groups, the latest message last: the records of a group are its entries in order.
unfoldable pub add_lazy_message_id : Text → Text → ℕ → Records → Records
add_lazy_message_id group message_id timestamp records =
    records ++ ((group, record { message_id = message_id; timestamp = timestamp }) ∷ [])

abbrev pub five_minutes : ℕ
five_minutes = 300000000000

-- The messages of a group that came less than five minutes before `now`.
unfoldable pub recent_messages : ℕ → Text → Records → List Text
recent_messages now group [] = []
recent_messages now group ((g, r) ∷ rest) =
    let later = recent_messages now group rest in
    if g == group
    then (if ltb now (r.timestamp + five_minutes) then r.message_id ∷ later else later)
    else later

-- A draw from a list that is not empty.
unfoldable pub nth_text : ℕ → Text → List Text → Text
nth_text n first [] = first
nth_text n first (second ∷ rest) = if eqb n 0 then first else nth_text (n - 1) second rest

-- the string case of the type switch
unfoldable pub get_message_type_by_groupid_v2 : Text → Text → EchoMapping → Text
unfolding get_msg_type_by_key
get_message_type_by_groupid_v2 appid group e = get_msg_type_by_key (appid ++ (b'_' ∷ group)) e

-- `random` is what rand.Intn takes its remainder of.
unfoldable pub get_lazy_messages_id : ℕ → ℕ → Text → Text → EchoMapping → Records → Text
unfolding recent_messages nth_text get_message_type_by_groupid_v2
get_lazy_messages_id random now appid group e records =
    elim (recent_messages now group records) as (λ _. Text) [
      | [] ↦
          (if has_prefix (get_message_type_by_groupid_v2 appid group e) (codes "guild")
            then codes "1000"
            else [])
      | first ∷ rest ↦ nth_text (random % length (first ∷ rest)) first rest
    ]
