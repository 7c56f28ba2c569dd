-- ===== src/Handlers/Send/Retry/Loops.antt =====
-- Actions that never come back: the handler writes the type under the number that it has read, and looks
-- for it under the text.
use gensokyo_discord.Prelude.{
  ℕ, zero, suc, Bool, true, false, Option, none, some, [], ◌∷◌, ◌++◌, ◌≡◌, refl, ◌∙◌, Text, ◌==◌,
  eq_iff, eqb_refl, codes, Outcome, ok, arith,
}
use gensokyo_discord.Strconv.{format_int}
use gensokyo_discord.Config.{Settings, get_app_id_str}
use gensokyo_discord.Http.{Fetch}
use gensokyo_discord.Bolt.{Bolt}
use gensokyo_discord.Echo.{EchoMapping, get_msg_type_by_key, add_msg_type}
use gensokyo_discord.Callapi.{ActionMessage}
use gensokyo_discord.Handlers.Types.{
  World, Sent, Media, get_message_type_by_groupid, get_message_type_by_userid,
  get_message_type_by_groupid_v2, get_message_type_by_userid_v2, type_of_echo,
}
use gensokyo_discord.Handlers.Send.Direct.{find_type}
use gensokyo_discord.Handlers.Send.Retry.{
  attempt, begin, id_of, first_then, find_private_type, handle_send_group_msg, handle_send_msg,
  handle_send_private_msg, Dispatched, switch_group, switch_msg, switch_private_msg,
}
use gensokyo_discord.Handlers.Send.Direct.{Receipt}

-- Two keys of one application are equal where what stands behind it is.
pub key_eq : (app a b : Text) → (app ++ (b'_' ∷ a)) == (app ++ (b'_' ∷ b)) ≡ a == b
key_eq [] a b = refl
key_eq (c ∷ app) a b = rw (eqb_refl c) (key_eq app a b)

-- The type of one identifier is not changed by setting that of another.
pub by_key_apart :
    (app : Text) (id : Text) (n : ℕ) (kind : Text) (types : EchoMapping)
    → id == format_int n ≡ false
    → get_msg_type_by_key (app ++ (b'_' ∷ id)) (add_msg_type app n kind types)
      ≡ get_msg_type_by_key (app ++ (b'_' ∷ id)) types
unfolding get_msg_type_by_key add_msg_type
by_key_apart app id n kind types apart =
    let differ : format_int n == id ≡ false =
      ground (arith, eq_iff id (format_int n), eq_iff (format_int n) id) in
    rw (key_eq app (format_int n) id ∙ differ) refl

module _ (bolt : Bolt) (s : Option Settings) where
  -- Where the type stays unknown at each call, the handler calls itself for ever.
  attempt-loops :
      (find : ActionMessage → World bolt → Outcome Text)
      (switch : Text → Receipt → ActionMessage → World bolt → Dispatched bolt s)
      (keep_first keep_last : Bool) (m : ActionMessage) (n : ℕ) (P : World bolt → Type 0)
      → id_of m ≡ (n, true)
      → ((w : World bolt) → P w → find m w ≡ ok [])
      → ((w : World bolt) → P w → P (begin bolt s n w))
      → (fuel : ℕ) (w : World bolt) → P w
      → attempt bolt s find switch keep_first keep_last fuel m w ≡ none
  unfolding attempt first_then
  attempt-loops find switch keep_first keep_last m n P number unknown kept zero w p = refl
  attempt-loops find switch keep_first keep_last m n P number unknown kept (suc fuel) w p =
      let again =
        attempt-loops find switch keep_first keep_last m n P number unknown kept fuel
          (begin bolt s n w) (kept w p) in
      rw (unknown w p, attempt, number, first_then, again) refl

module _ (bolt : Bolt) (s : Option Settings) (fetch : Fetch) (md5_hex : Text → Text)
    (opens : Text → Bool) (delivers : Sent → Bool) (answered : Bool) (drawn : Text → Text)
    (media : Media) (m : ActionMessage) (n : ℕ) (user group : Text) where
  -- Nothing is known about the user and the group, in memory or in the database.
  pub record IsUnknown (w : World bolt) : Type 0 where
    pub by_user : get_message_type_by_userid (get_app_id_str s) (some user) w.types ≡ []
    pub by_group : get_message_type_by_groupid (get_app_id_str s) (some group) w.types ≡ []
    pub user_stored : get_message_type_by_userid_v2 bolt s fetch (some user) w ≡ ok []
    pub group_stored : get_message_type_by_groupid_v2 bolt s fetch (some group) w ≡ ok []

  module _ (of_user : m.params.user_id ≡ some user) (of_group : m.params.group_id ≡ some group)
      (no_echo : m.echo ≡ none) (number : id_of m ≡ (n, true))
      (user_apart : user == format_int n ≡ false)
      (group_apart : group == format_int n ≡ false) where
    begin-IsUnknown : (w : World bolt) → IsUnknown w → IsUnknown (begin bolt s n w)
    unfolding begin get_message_type_by_userid get_message_type_by_groupid
        get_message_type_by_userid_v2 get_message_type_by_groupid_v2
    begin-IsUnknown w u = record {
      by_user =
          by_key_apart (get_app_id_str s) user n (codes "group_private") w.types user_apart
          ∙ u.by_user;
      by_group =
          by_key_apart (get_app_id_str s) group n (codes "group_private") w.types group_apart
          ∙ u.by_group;
      user_stored = u.user_stored;
      group_stored = u.group_stored;
    }

    find_type-unknown :
        (w : World bolt)
        → IsUnknown w
        → find_type bolt s fetch md5_hex opens delivers answered drawn media m w ≡ ok []
    unfolding find_type type_of_echo
    find_type-unknown w u =
        rw (no_echo, of_group, of_user, u.by_group, u.by_user, u.group_stored, u.user_stored) refl

    find_private_type-unknown :
        (w : World bolt)
        → IsUnknown w
        → find_private_type bolt s fetch md5_hex opens delivers answered drawn media m w ≡ ok []
    unfolding find_private_type type_of_echo
    find_private_type-unknown w u =
        rw (no_echo, of_group, of_user, u.by_group, u.by_user, u.group_stored, u.user_stored) refl

    -- Where nothing is known about the user and the group of an action without an echo, and its number is not
    -- the one that either of its texts spells (as where both are empty, and the number is 0), none of the three
    -- sending actions ever comes back, with any fuel: each call finds the type unknown and calls itself.
    pub handle_send_msg_never_returns :
        (w : World bolt)
        → IsUnknown w
        → (fuel : ℕ)
        → (handle_send_group_msg bolt s fetch md5_hex opens delivers answered drawn media fuel m w
            ≡ none)
          × (handle_send_msg bolt s fetch md5_hex opens delivers answered drawn media fuel m w
              ≡ none)
          × (handle_send_private_msg bolt s fetch md5_hex opens delivers answered drawn media fuel m
                w
              ≡ none)
    unfolding handle_send_group_msg handle_send_msg handle_send_private_msg
    handle_send_msg_never_returns w u fuel =
        let find = find_type bolt s fetch md5_hex opens delivers answered drawn media in
        let find_private =
          find_private_type bolt s fetch md5_hex opens delivers answered drawn media in
        (
          attempt-loops bolt s find
              (switch_group bolt s fetch md5_hex opens delivers answered drawn media) true false m n
              IsUnknown number find_type-unknown begin-IsUnknown fuel w u,
          attempt-loops bolt s find
              (switch_msg bolt s fetch md5_hex opens delivers answered drawn media) true true m n
              IsUnknown number find_type-unknown begin-IsUnknown fuel w u,
          attempt-loops bolt s find_private
              (switch_private_msg bolt s fetch md5_hex opens delivers answered drawn media) false
              false m n IsUnknown number find_private_type-unknown begin-IsUnknown fuel w u,
        )
