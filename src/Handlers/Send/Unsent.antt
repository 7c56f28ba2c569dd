-- ===== src/Handlers/Send/Unsent.antt =====
-- Actions without a user: `ConvertToInt64` fails at nil, so that a group of an unknown type is not tried.
use gensokyo_discord.Prelude.{
  ℕ, suc, ◌+◌, ◌-◌, ◌%◌, Bool, false, Option, none, some, [], ◌≡◌, refl, Text, ok, Bool-cases,
  eqb_refl, inl, inr,
}
use gensokyo_discord.Strconv.{two_64}
use gensokyo_discord.Config.{Settings, get_app_id_str}
use gensokyo_discord.Http.{Fetch}
use gensokyo_discord.Bolt.{Bolt}
use gensokyo_discord.Echo.{get_mapping, add_mapping}
use gensokyo_discord.Callapi.{ActionMessage}
use gensokyo_discord.Handlers.Types.{
  World, Sent, Media, convert_to_int64, type_of_echo, get_message_type_by_groupid,
  get_message_type_by_userid, get_message_type_by_groupid_v2, get_message_type_by_userid_v2,
}
use gensokyo_discord.Handlers.Send.Direct.{find_type}
use gensokyo_discord.Handlers.Send.Retry.{
  positive, id_of, count_down, next_type, after_switch, after_first, first_then, attempt,
  switch_group, handle_send_group_msg,
}

id_of-nobody : (m : ActionMessage) → m.params.user_id ≡ none → id_of m ≡ (0, false)
unfolding id_of convert_to_int64
id_of-nobody m nobody = rw nobody refl

module _ (bolt : Bolt) (s : Option Settings) (fetch : Fetch) (md5_hex : Text → Text)
    (opens : Text → Bool) (delivers : Sent → Bool) (answered : Bool) (drawn : Text → Text)
    (media : Media) (m : ActionMessage) (w : World bolt) (group : Text) where
  -- No type of the group is known, in memory or in the database.
  pub record IsUntyped : Type 0 where
    pub nobody : m.params.user_id ≡ none
    pub of_group : m.params.group_id ≡ some group
    pub no_echo : m.echo ≡ none
    pub in_memory : get_message_type_by_groupid (get_app_id_str s) (some group) w.types ≡ []
    pub in_store : get_message_type_by_groupid_v2 bolt s fetch (some group) w ≡ ok []
    pub last : positive ((get_mapping w.counters 0 + (two_64 - 1)) % two_64) ≡ false

  find_type-untyped :
      IsUntyped → find_type bolt s fetch md5_hex opens delivers answered drawn media m w ≡ ok []
  unfolding find_type type_of_echo get_message_type_by_userid get_message_type_by_userid_v2
  find_type-untyped u = rw (u.no_echo, u.of_group, u.nobody, u.in_memory, u.in_store) refl

  outbox-count_down :
      (n : ℕ)
      → ((count_down bolt s n w).outbox ≡ w.outbox)
        × ((count_down bolt s n w).receipts ≡ w.receipts)
  unfolding count_down
  outbox-count_down n = elim (Bool-cases (positive (get_mapping w.counters n))) [
    | inl more ↦ rw (more, count_down) (refl, refl)
    | inr done ↦ rw (done, count_down) (refl, refl)
  ]

  counter-count_down :
      (n : ℕ)
      → get_mapping (count_down bolt s n w).counters n
        ≡ (get_mapping w.counters n + (two_64 - 1)) % two_64
  unfolding count_down get_mapping add_mapping
  counter-count_down n = rw (eqb_refl n) refl

  -- An action for a group of an unknown type that has no user, as the HTTP interface and quick operations make it,
  -- is answered without an error and with the empty text, and nothing is sent.
  pub group_msg_without_user :
      (fuel : ℕ)
      → IsUntyped
      → (v : World bolt) × (handle_send_group_msg bolt s fetch md5_hex opens delivers answered drawn
            media
            (suc fuel)
            m
            w
          ≡ some (ok none, v))
        × (v.outbox ≡ w.outbox)
        × (v.receipts ≡ w.receipts)
  unfolding handle_send_group_msg attempt first_then after_first after_switch next_type switch_group
  group_msg_without_user fuel u =
      let id = id_of-nobody m u.nobody in
      let done : positive (get_mapping (count_down bolt s 0 w).counters 0) ≡ false =
        rw (counter-count_down 0) u.last in
      let (outbox, receipts) = outbox-count_down 0 in
      (
        count_down bolt s 0 w,
        rw (find_type-untyped u, attempt, first_then, id, done) refl,
        outbox,
        receipts,
      )
