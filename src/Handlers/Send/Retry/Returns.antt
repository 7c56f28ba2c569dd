-- ===== src/Handlers/Send/Retry/Returns.antt =====
-- Actions that come back: five calls, one inside the other, are enough.
use gensokyo_discord.Prelude.{
  on_outcome, ℕ, zero, suc, ◌+◌, ◌-◌, ◌%◌, ◌≤◌, Bool, true, false, ◌&&◌, Option, none, some,
  is_some, [], ◌∷◌, ◌++◌, ◌≡◌, ◌⊎◌, refl, ap, ◌∙◌, Text, ◌==◌, eq_refl, eqb_refl, codes, Outcome,
  ok, err, panicked, Outcome-cases, Bool-cases, Option-cases, arith, inl, inr,
}
use mathlib.Core.Path.{subst}
use gensokyo_discord.Strconv.{format_int, two_64}
use gensokyo_discord.Config.{Settings, get_app_id_str}
use gensokyo_discord.Http.{Fetch}
use gensokyo_discord.Bolt.{Bolt}
use gensokyo_discord.Echo.{EchoMapping, get_mapping, add_mapping, add_msg_type, get_msg_type_by_key}
use gensokyo_discord.Callapi.{ActionMessage}
use gensokyo_discord.Handlers.Types.{
  World, Sent, Media, get_message_type_by_groupid, get_message_type_by_userid, type_of_echo,
  or_else,
}
use gensokyo_discord.Handlers.Send.Direct.{Receipt, find_type}
use gensokyo_discord.Handlers.Send.Retry.{
  Result, Dispatched, Runs, keep, positive, id_of, set_type, try_message_types, begin, count_down,
  next_type, after_switch, after_first, first_then, attempt, find_private_type, switch_group,
  switch_msg, switch_private_msg, handle_send_group_msg, handle_send_msg, handle_send_private_msg,
}
use gensokyo_discord.Handlers.Send.Retry.Known.{
  SwitchKeeps, switch_group-Keeps, switch_msg-Keeps, switch_private_msg-Keeps,
}
use gensokyo_discord.Handlers.Send.Retry.Loops.{key_eq}

-- The number of the action is the one that its user or its group spells, or there is none.
unfoldable pub IsSpelled : ActionMessage → Type 0
IsSpelled m =
    ((id_of m).1 ≡ false)
    ⊎ (m.params.user_id ≡ some (format_int (id_of m).0))
    ⊎ (m.params.group_id ≡ some (format_int (id_of m).0))

id_of-same :
    (m m' : ActionMessage)
    → m'.params.user_id ≡ m.params.user_id
    → m'.params.group_id ≡ m.params.group_id
    → id_of m' ≡ id_of m
unfolding id_of
id_of-same m m' user group = rw (user, group) refl

IsSpelled-same :
    (m m' : ActionMessage)
    → m'.params.user_id ≡ m.params.user_id
    → m'.params.group_id ≡ m.params.group_id
    → IsSpelled m
    → IsSpelled m'
unfolding IsSpelled
IsSpelled-same m m' user group spelled = rw (id_of-same m m' user group, user, group) spelled

-- The types that are tried are not empty; from the fourth on there is none.
try_cases :
    (i : ℕ)
    → ((kind : Text) × (try_message_types i ≡ ok kind) × (kind == [] ≡ false) × (i ≤ 2))
      ⊎ (try_message_types i ≡ panicked)
unfolding try_message_types
try_cases zero = inl (codes "group", refl, refl, omega arith)
try_cases (suc zero) = inl (codes "guild", refl, refl, omega arith)
try_cases (suc (suc zero)) = inl (codes "guild_private", refl, refl, omega arith)
try_cases (suc (suc (suc n))) = inr refl

module _ (bolt : Bolt) (s : Option Settings) (find : ActionMessage → World bolt → Outcome Text)
    (switch : Text → Receipt → ActionMessage → World bolt → Dispatched bolt s)
    (keep_first keep_last : Bool) where
  abbrev counter : ℕ → World bolt → ℕ
  counter n w = get_mapping w.counters n

  some_kept :
      (x : Option (Result bolt s)) (f : Result bolt s → Result bolt s)
      → is_some x ≡ true
      → is_some (elim x as (λ _. Option (Result bolt s)) [ none ↦ none | some r ↦ some (f r) ])
        ≡ true
  some_kept none f h = h
  some_kept (some r) f h = refl

  next_type-returns :
      (again : Runs bolt s find switch keep_first keep_last) (n : ℕ) (reply : Receipt)
      (m : ActionMessage) (w : World bolt)
      → ((kind : Text)
          → kind == [] ≡ false
          → positive (counter n w) ≡ true
          → counter n w ≤ 3
          → is_some (again m (set_type bolt s n kind w)) ≡ true)
      → is_some (next_type bolt s find switch keep_first keep_last again n reply m w) ≡ true
  unfolding next_type
  next_type-returns again n reply m w h = elim (Bool-cases (positive (counter n w))) [
    | inl more ↦ elim (try_cases (counter n w - 1)) [
      | inl (kind, is, filled, low) ↦
          rw (more, next_type, is)
            (some_kept _
              (λ last.
                (keep bolt s find switch keep_first keep_last keep_last last.0 reply, last.1))
              (h kind filled more (omega arith)))
      | inr over ↦ rw (more, next_type, over) refl
    ]
    | inr done ↦ rw (done, next_type) refl
  ]

  -- The counter after a call of `count_down`.
  counter-count_down :
      (n : ℕ) (w : World bolt)
      → counter n (count_down bolt s n w) ≡ (counter n w + (two_64 - 1)) % two_64
  unfolding count_down get_mapping add_mapping
  counter-count_down n w = rw (eqb_refl n) refl

  -- The handler does not start over: its type is known, or the action has no number.
  IsStraight : ActionMessage → World bolt → Type 0
  IsStraight m w = (kind : Text) → find m w ≡ ok kind → (kind == [] && (id_of m).1) ≡ false

  -- What the `switch` leaves as it was.
  pub Keeps : ActionMessage → World bolt → Dispatched bolt s → Type 0
  Keeps m w (ok (m', reply, goes_on), w') =
      (w'.counters ≡ w.counters)
      × (m'.params.user_id ≡ m.params.user_id)
      × (m'.params.group_id ≡ m.params.group_id)
  Keeps m w (err e, w') = Unit
  Keeps m w (panicked, w') = Unit

  module _
      (keeps : (kind : Text) (before : Receipt) (m : ActionMessage) (w : World bolt)
        → Keeps m w (switch kind before m w))
      (straight : (m : ActionMessage) (w : World bolt) (kind : Text)
        → IsSpelled m
        → kind == [] ≡ false
        → IsStraight m (set_type bolt s (id_of m).0 kind w)) where
    -- A call after the `switch` starts with a lower counter, which is 3 at most.
    abbrev Again :
        ActionMessage → World bolt → Runs bolt s find switch keep_first keep_last → Type 0
    Again m w again =
        (m' : ActionMessage) (w' : World bolt)
        → IsSpelled m'
        → IsStraight m' w'
        → counter (id_of m').0 w' ≤ 3
        → positive (counter (id_of m').0 w') ≡ true
        → counter (id_of m').0 w' ≡ (counter (id_of m).0 w + (two_64 - 1)) % two_64
        → is_some (again m' w') ≡ true

    after_switch-returns :
        (again : Runs bolt s find switch keep_first keep_last) (m : ActionMessage) (w : World bolt)
        (d : Dispatched bolt s)
        → IsSpelled m
        → Keeps m w d
        → Again m w again
        → is_some (after_switch bolt s find switch keep_first keep_last again (id_of m).0 d) ≡ true
    unfolding after_switch Keeps get_mapping
    after_switch-returns again m w (ok (m', reply, true), w') spelled (counters, user, group) h =
        next_type-returns again (id_of m).0 reply m' (count_down bolt s (id_of m).0 w')
          λ kind filled more low.
            let same = id_of-same m m' user group in
            let spelled' = IsSpelled-same m m' user group spelled in
            let n = (id_of m).0 in
            let w3 = set_type bolt s n kind (count_down bolt s n w') in
            let before : counter n w' ≡ counter n w = ap (λ c. get_mapping c n) counters in
            let now : counter n w3 ≡ (counter n w + (two_64 - 1)) % two_64 =
              counter-count_down n w' ∙ ap (λ c. (c + (two_64 - 1)) % two_64) before in
            h m' w3 spelled'
              (subst (λ p. IsStraight m' (set_type bolt s p.0 kind (count_down bolt s n w'))) same
                (straight m' (count_down bolt s n w') kind spelled' filled))
              (rw same low) (rw same more) (rw same now)
    after_switch-returns again m w (ok (m', reply, false), w') spelled kept h = refl
    after_switch-returns again m w (err e, w') spelled kept h = refl
    after_switch-returns again m w (panicked, w') spelled kept h = refl

    straight-returns :
        (fuel : ℕ) (m : ActionMessage) (w : World bolt)
        → IsSpelled m
        → IsStraight m w
        → Again m w (attempt bolt s find switch keep_first keep_last fuel)
        → is_some (attempt bolt s find switch keep_first keep_last (suc fuel) m w) ≡ true
    unfolding attempt first_then after_first IsStraight
    straight-returns fuel m w spelled direct h = elim (Outcome-cases (find m w)) [
      | inl (kind, is) ↦
          rw (is, attempt, first_then, direct kind is)
            (after_switch-returns (attempt bolt s find switch keep_first keep_last fuel) m w
              (switch kind none m w) spelled (keeps kind none m w) h)
      | inr (inl (e, is)) ↦ rw (is, attempt) refl
      | inr (inr is) ↦ rw (is, attempt) refl
    ]

    -- With a counter of at most 3, that many calls are enough.
    few-returns :
        (j : ℕ) (m : ActionMessage) (w : World bolt)
        → IsSpelled m
        → IsStraight m w
        → counter (id_of m).0 w ≤ suc j
        → j ≤ 2
        → is_some (attempt bolt s find switch keep_first keep_last (suc j) m w) ≡ true
    few-returns zero m w spelled direct low small =
        straight-returns 0 m w spelled direct
          λ m' w' spelled' direct' low' more now. absurd (ground arith)
    few-returns (suc j) m w spelled direct low small =
        straight-returns (suc j) m w spelled direct λ m' w' spelled' direct' low' more now.
          few-returns j m' w' spelled' direct' (ground arith) (omega arith)

    -- With any counter, four are.
    any-returns :
        (m : ActionMessage) (w : World bolt)
        → IsSpelled m
        → IsStraight m w
        → is_some (attempt bolt s find switch keep_first keep_last 4 m w) ≡ true
    any-returns m w spelled direct =
        straight-returns 3 m w spelled direct λ m' w' spelled' direct' low' more now.
          few-returns 2 m' w' spelled' direct' low' (omega arith)

    -- And five for an action that starts over.
    attempt-returns :
        (m : ActionMessage) (w : World bolt)
        → IsSpelled m
        → is_some (attempt bolt s find switch keep_first keep_last 5 m w) ≡ true
    unfolding attempt first_then after_first begin IsStraight
    attempt-returns m w spelled = elim (Outcome-cases (find m w)) [
      | inl (kind, is) ↦ elim (Bool-cases (kind == [] && (id_of m).1)) [
        | inl unknown ↦
            (let n = (id_of m).0 in
              let four = attempt bolt s find switch keep_first keep_last 4 in
              let w1 : World bolt = record w { counters = add_mapping n 4 w.counters } in
              let any : (m' : ActionMessage) (w' : World bolt)
                  → IsSpelled m'
                  → IsStraight m' w'
                  → is_some (four m' w') ≡ true =
                any-returns in
              let first =
                any m (set_type bolt s n (codes "group_private") w1) spelled
                  (straight m w1 (codes "group_private") spelled refl) in
              elim (Option-cases (four m (set_type bolt s n (codes "group_private") w1))) [
                | inl (r, returned) ↦
                    rw (is, attempt, first_then, unknown, begin, returned)
                      (on_outcome {A = Receipt} {B = Option (Result bolt s)} (λ o. is_some o ≡ true)
                        (keep bolt s find switch keep_first keep_last keep_first r.0 none)
                        (λ before.
                          after_switch-returns four m r.1 (switch kind before m r.1) spelled
                            (keeps kind before m r.1)
                            (λ m' w' spelled' direct' low more now. any m' w' spelled' direct'))
                        (λ e. refl) refl)
                | inr stuck ↦ let clash : false ≡ true = rw stuck at first in cc
              ])
        | inr known ↦
            rw (is, attempt, first_then, known)
              (after_switch-returns (attempt bolt s find switch keep_first keep_last 4) m w
                (switch kind none m w) spelled (keeps kind none m w)
                (λ m' w' spelled' direct' low more now. any-returns m' w' spelled' direct'))
      ]
      | inr (inl (e, is)) ↦ rw (is, attempt) refl
      | inr (inr is) ↦ rw (is, attempt) refl
    ]

-- A lookup that gives no empty text.
IsFilled : Outcome Text → Type 0
IsFilled o = (kind : Text) → o ≡ ok kind → kind == [] ≡ false

or_else-IsFilled : (a : Text) (next : Outcome Text) → IsFilled next → IsFilled (or_else (ok a) next)
unfolding IsFilled
or_else-IsFilled [] next h kind is = h kind is
or_else-IsFilled (c ∷ a) next h kind is = let e : c ∷ a ≡ kind = cc in rw (← e) refl

found-IsFilled : (a : Text) (next : Outcome Text) → a == [] ≡ false → IsFilled (or_else (ok a) next)
unfolding IsFilled
found-IsFilled [] next h kind is = let clash : true ≡ false = h in cc
found-IsFilled (c ∷ a) next h kind is = let e : c ∷ a ≡ kind = cc in rw (← e) refl

-- The type of an identifier is found after it was set under its number.
by_key-set :
    (app : Text) (n : ℕ) (kind : Text) (types : EchoMapping)
    → get_msg_type_by_key (app ++ (b'_' ∷ format_int n)) (add_msg_type app n kind types) ≡ kind
unfolding get_msg_type_by_key add_msg_type
by_key-set app n kind types =
    rw (key_eq app (format_int n) (format_int n) ∙ eq_refl (format_int n)) refl

set-IsFilled :
    (a kind : Text) (next : Outcome Text)
    → a ≡ kind
    → kind == [] ≡ false
    → IsFilled (or_else (ok a) next)
set-IsFilled a kind next e filled = found-IsFilled a next (rw e filled)

user-set :
    (app : Text) (n : ℕ) (kind : Text) (types : EchoMapping) (user : Option Text)
    → user ≡ some (format_int n)
    → get_message_type_by_userid app user (add_msg_type app n kind types) ≡ kind
unfolding get_message_type_by_userid
user-set app n kind types user e = rw e (by_key-set app n kind types)

pub group-set :
    (app : Text) (n : ℕ) (kind : Text) (types : EchoMapping) (group : Option Text)
    → group ≡ some (format_int n)
    → get_message_type_by_groupid app group (add_msg_type app n kind types) ≡ kind
unfolding get_message_type_by_groupid
group-set app n kind types group e = rw e (by_key-set app n kind types)

and_false : (b c : Bool) → c ≡ false → (b && c) ≡ false
and_false true c h = h
and_false false c h = refl

and_false_left : (b c : Bool) → b ≡ false → (b && c) ≡ false
and_false_left true c h = cc
and_false_left false c h = refl

module _ (bolt : Bolt) (s : Option Settings) (fetch : Fetch) (md5_hex : Text → Text)
    (opens : Text → Bool) (delivers : Sent → Bool) (answered : Bool) (drawn : Text → Text)
    (media : Media) where
  module _ (switch : Text → Receipt → ActionMessage → World bolt → Dispatched bolt s)
      (keep_first keep_last : Bool) (m : ActionMessage) (w : World bolt) (kind : Text) where
    find_type-IsStraight :
        IsSpelled m
        → kind == [] ≡ false
        → IsStraight bolt s
            (find_type bolt s fetch md5_hex opens delivers answered drawn media)
            switch
            keep_first
            keep_last
            m
            (set_type bolt s (id_of m).0 kind w)
    unfolding IsStraight IsSpelled IsFilled find_type get_message_type_by_userid
        get_message_type_by_groupid
    find_type-IsStraight (inl unread) filled k is = and_false (k == []) (id_of m).1 unread
    find_type-IsStraight (inr (inl user)) filled k is = and_false_left (k == []) (id_of m).1 (
        or_else-IsFilled (type_of_echo m.echo _) _
          (or_else-IsFilled (get_message_type_by_groupid (get_app_id_str s) m.params.group_id _) _ (
            set-IsFilled _ kind _
              (user-set (get_app_id_str s) (id_of m).0 kind w.types m.params.user_id user) filled))
          k is)
    find_type-IsStraight (inr (inr group)) filled k is = and_false_left (k == []) (id_of m).1 (
        or_else-IsFilled (type_of_echo m.echo _) _
          (set-IsFilled _ kind _
            (group-set (get_app_id_str s) (id_of m).0 kind w.types m.params.group_id group) filled)
          k is)

    find_private_type-IsStraight :
        IsSpelled m
        → kind == [] ≡ false
        → IsStraight bolt s
            (find_private_type bolt s fetch md5_hex opens delivers answered drawn media)
            switch
            keep_first
            keep_last
            m
            (set_type bolt s (id_of m).0 kind w)
    unfolding IsStraight IsSpelled IsFilled find_private_type get_message_type_by_userid
        get_message_type_by_groupid
    find_private_type-IsStraight (inl unread) filled k is = and_false (k == []) (id_of m).1 unread
    find_private_type-IsStraight (inr (inl user)) filled k is =
        and_false_left (k == []) (id_of m).1 (
          or_else-IsFilled (type_of_echo m.echo _) _
            (set-IsFilled _ kind _
              (user-set (get_app_id_str s) (id_of m).0 kind w.types m.params.user_id user) filled)
            k is)
    find_private_type-IsStraight (inr (inr group)) filled k is =
        and_false_left (k == []) (id_of m).1 (
          or_else-IsFilled (type_of_echo m.echo _) _
            (or_else-IsFilled (get_message_type_by_userid (get_app_id_str s) m.params.user_id _) _ (
              set-IsFilled _ kind _
                (group-set (get_app_id_str s) (id_of m).0 kind w.types m.params.group_id group)
                filled))
            k is)

  module _ (find : ActionMessage → World bolt → Outcome Text)
      (switch : Text → Receipt → ActionMessage → World bolt → Dispatched bolt s)
      (keep_first keep_last : Bool) (m : ActionMessage) (w : World bolt) where
    SwitchKeeps→Keeps :
        (d : Dispatched bolt s)
        → SwitchKeeps bolt s fetch md5_hex opens delivers answered drawn media m w d
        → Keeps bolt s find switch keep_first keep_last m w d
    unfolding Keeps SwitchKeeps
    SwitchKeeps→Keeps (ok (m', reply, goes_on), w') h = (h.0, h.1, h.2)
    SwitchKeeps→Keeps (err e, w') h = tt
    SwitchKeeps→Keeps (panicked, w') h = tt

  -- An action whose number cannot be read, or is the one that its user or its group spells, comes back
  -- from each of the three sending actions in every world, with at most five calls inside one another.
  pub handle_send_msg_returns :
      (m : ActionMessage) (w : World bolt)
      → IsSpelled m
      → (is_some
            (handle_send_group_msg bolt s fetch md5_hex opens delivers answered drawn media 5 m w)
          ≡ true)
        × (is_some (handle_send_msg bolt s fetch md5_hex opens delivers answered drawn media 5 m w)
            ≡ true)
        × (is_some (
              handle_send_private_msg bolt s fetch md5_hex opens delivers answered drawn media 5 m
                w)
            ≡ true)
  unfolding handle_send_group_msg handle_send_msg handle_send_private_msg
  handle_send_msg_returns m w spelled =
      let find = find_type bolt s fetch md5_hex opens delivers answered drawn media in
      let find_private =
        find_private_type bolt s fetch md5_hex opens delivers answered drawn media in
      let group = switch_group bolt s fetch md5_hex opens delivers answered drawn media in
      let msg = switch_msg bolt s fetch md5_hex opens delivers answered drawn media in
      let private = switch_private_msg bolt s fetch md5_hex opens delivers answered drawn media in
      (
        attempt-returns bolt s find group true false
            (λ kind before m w.
              SwitchKeeps→Keeps find group true false m w (group kind before m w) (
                switch_group-Keeps bolt s fetch md5_hex opens delivers answered drawn media kind
                  before m w))
            (λ m w kind. find_type-IsStraight group true false m w kind) m w spelled,
        attempt-returns bolt s find msg true true
            (λ kind before m w. SwitchKeeps→Keeps find msg true true m w (msg kind before m w) (
              switch_msg-Keeps bolt s fetch md5_hex opens delivers answered drawn media kind before
                m w))
            (λ m w kind. find_type-IsStraight msg true true m w kind) m w spelled,
        attempt-returns bolt s find_private private false false
            (λ kind before m w.
              SwitchKeeps→Keeps find_private private false false m w (private kind before m w) (
                switch_private_msg-Keeps bolt s fetch md5_hex opens delivers answered drawn media
                  kind before m w))
            (λ m w kind. find_private_type-IsStraight private false false m w kind) m w spelled,
      )
