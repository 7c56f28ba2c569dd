-- ===== src/Tests/Echo.antt =====
-- echo: the stack of upload times and a draw from a group's messages.
use gensokyo_discord.Prelude.{
  Text, ℕ, List, [], ◌∷◌, ◌≡◌, ◌≤◌, ◌⊎◌, refl, codes, arith, length, has_prefix, if◌then◌else◌,
}
use gensokyo_discord.Strconv.{format_int}
use gensokyo_discord.Echo.{
  EchoMapping, Records, add_msg_type, get_msg_type_by_key, add_file_time_limit, get_file_time_limit,
  add_lazy_message_id, recent_messages, get_lazy_messages_id, get_message_type_by_groupid_v2,
}
use gensokyo_discord.Echo.Laws.{
  add_each, add_file_time_limit_bounded, IsRecent, get_lazy_messages_id_lem,
}

abbrev times : List ℕ
times = 1 ∷ 2 ∷ 3 ∷ 4 ∷ 5 ∷ 6 ∷ 7 ∷ 8 ∷ 9 ∷ 10 ∷ 11 ∷ []

add_file_time_limit_bounded_example :
    (length (add_each times []) ≤ 10)
    × (get_file_time_limit (add_file_time_limit 12 (add_each times [])) ≡ 12)
add_file_time_limit_bounded_example = add_file_time_limit_bounded times [] 12 (omega arith)

abbrev no_messages : EchoMapping
no_messages = record { msg_type_mapping = []; msg_id_mapping = [] }

echo_run : Unit {0}
unfolding format_int add_msg_type get_msg_type_by_key add_lazy_message_id recent_messages
    get_lazy_messages_id
echo_run = tt

msg_type_found :
    get_msg_type_by_key (codes "app_7") (add_msg_type (codes "app") 7 (codes "guild") no_messages)
    ≡ codes "guild"
unfolding echo_run
msg_type_found = refl

-- A message of an hour ago, and one of now.
abbrev two_messages : Records
two_messages =
    add_lazy_message_id (codes "5") (codes "m2") 3600000000000
      (add_lazy_message_id (codes "5") (codes "m1") 1 [])

second_drawn :
    get_lazy_messages_id 4 3600000000001 (codes "app") (codes "5") no_messages two_messages
    ≡ codes "m2"
unfolding echo_run
second_drawn = refl

get_lazy_messages_id_lem_example :
    IsRecent 3600000000001
      (codes "5")
      (get_lazy_messages_id 4 3600000000001 (codes "app") (codes "5") no_messages two_messages)
      two_messages
    ⊎ (((id : Text) → ¬ IsRecent 3600000000001 (codes "5") id two_messages)
        × (get_lazy_messages_id 4 3600000000001 (codes "app") (codes "5") no_messages two_messages
            ≡ (if has_prefix
                  (get_message_type_by_groupid_v2 (codes "app") (codes "5") no_messages)
                  (codes "guild")
                then codes "1000"
                else [])))
get_lazy_messages_id_lem_example =
    get_lazy_messages_id_lem 4 3600000000001 (codes "app") (codes "5") no_messages two_messages
