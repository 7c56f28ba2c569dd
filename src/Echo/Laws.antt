-- ===== src/Echo/Laws.antt =====
-- The stack of upload times, and which messages are drawn.
use mathlib.Core.Path.{subst}
use gensokyo_discord.Prelude.{
  ℕ, ◌+◌, ◌-◌, ◌%◌, ◌≤◌, ◌<◌, true, List, [], ◌∷◌, ◌++◌, ◌≡◌, ◌≢◌, ◌⊎◌, refl, sym, Text, ◌==◌,
  codes, has_prefix, eq_iff, eq_refl, eqb, ltb, length, length-append, Bool-cases, inl, inr, arith,
  if◌then◌else◌,
}
use gensokyo_discord.Echo.{
  Records, MessageRecord, EchoMapping, add_file_time_limit, without_first, get_file_time_limit,
  recent_messages, nth_text, get_lazy_messages_id, get_message_type_by_groupid_v2, five_minutes,
}

get_file_time_limit-append :
    (stack : List ℕ) (value : ℕ) → get_file_time_limit (stack ++ (value ∷ [])) ≡ value
unfolding get_file_time_limit
get_file_time_limit-append [] value = refl
get_file_time_limit-append (v ∷ []) value = refl
get_file_time_limit-append (v ∷ w ∷ rest) value = get_file_time_limit-append (w ∷ rest) value

length-without_first : (stack : List ℕ) → length (without_first stack) ≡ length stack - 1
length-without_first [] = refl
length-without_first (v ∷ rest) = omega arith

length-add_file_time_limit :
    (value : ℕ) (stack : List ℕ) → length stack ≤ 10 → length (add_file_time_limit value stack) ≤ 10
unfolding add_file_time_limit
length-add_file_time_limit value stack few =
    ground (arith, length-append stack (value ∷ []), length-without_first (stack ++ (value ∷ [])))

-- A stack whose oldest time is dropped has the same top.
top_kept :
    (stack : List ℕ) (value : ℕ)
    → ltb 10 (length (stack ++ (value ∷ []))) ≡ true
    → get_file_time_limit (without_first (stack ++ (value ∷ []))) ≡ value
top_kept [] value many = ground arith
top_kept (v ∷ stack) value many = get_file_time_limit-append stack value

get_file_time_limit-add_file_time_limit :
    (value : ℕ) (stack : List ℕ) → get_file_time_limit (add_file_time_limit value stack) ≡ value
unfolding add_file_time_limit
get_file_time_limit-add_file_time_limit value stack =
    elim (Bool-cases (ltb 10 (length (stack ++ (value ∷ []))))) [
      | inl many ↦ rw many (top_kept stack value many)
      | inr few ↦ rw few (get_file_time_limit-append stack value)
    ]

-- The times of a list, added from left to right.
pub add_each : List ℕ → List ℕ → List ℕ
add_each [] stack = stack
add_each (v ∷ values) stack = add_each values (add_file_time_limit v stack)

-- However many times are added to a stack of at most ten, it holds at most ten, and the next one
-- that is added is the one that is read.
pub add_file_time_limit_bounded :
    (values stack : List ℕ) (value : ℕ)
    → length stack ≤ 10
    → (length (add_each values stack) ≤ 10)
      × (get_file_time_limit (add_file_time_limit value (add_each values stack)) ≡ value)
unfolding add_each add_file_time_limit
add_file_time_limit_bounded [] stack value few =
    (few, get_file_time_limit-add_file_time_limit value stack)
add_file_time_limit_bounded (v ∷ values) stack value few =
    add_file_time_limit_bounded values (add_file_time_limit v stack) value
      (length-add_file_time_limit v stack few)

-- A message of a group that came less than five minutes, in nanoseconds, before `now`, and where it is.
pub data IsRecent (now : ℕ) (group message_id : Text) : Records → Type 0 where
  here :
      {r : MessageRecord} {rest : Records}
      → r.message_id ≡ message_id
      → now < r.timestamp + 300000000000
      → IsRecent now group message_id ((group, r) ∷ rest)
  there :
      {entry : Text × MessageRecord} {rest : Records}
      → IsRecent now group message_id rest
      → IsRecent now group message_id (entry ∷ rest)

abbrev All : (Text → Type 0) → List Text → Type 0
All P [] = Unit
All P (x ∷ xs) = P x × All P xs

All-map : {P Q : Text → Type 0} → ((x : Text) → P x → Q x) → (xs : List Text) → All P xs → All Q xs
All-map f [] holds = tt
All-map f (x ∷ xs) (h, holds) = (f x h, All-map f xs holds)

All-nth_text :
    (P : Text → Type 0) (n : ℕ) (first : Text) (rest : List Text)
    → All P (first ∷ rest)
    → P (nth_text n first rest)
unfolding nth_text
All-nth_text P n first [] (h, holds) = h
All-nth_text P n first (second ∷ rest) (h, holds) =
    let later = All-nth_text P (n - 1) second rest holds in
    elim (Bool-cases (eqb n 0)) [ inl zeroth ↦ rw zeroth h | inr more ↦ rw more later ]

recent_messages-All :
    (now : ℕ) (group : Text) (records : Records)
    → All (λ id. IsRecent now group id records) (recent_messages now group records)
unfolding recent_messages
recent_messages-All now group [] = tt
recent_messages-All now group ((g, r) ∷ rest) =
    let later =
      All-map {P = λ id. IsRecent now group id rest}
        {Q = λ id. IsRecent now group id ((g, r) ∷ rest)} (λ x h. there h)
        (recent_messages now group rest) (recent_messages-All now group rest) in
    elim (Bool-cases (g == group)) [
      | inl same ↦ rw same (elim (Bool-cases (ltb now (r.timestamp + five_minutes))) [
        | inl new ↦ rw new (
          subst (λ t. IsRecent now group r.message_id ((t, r) ∷ rest))
              (sym ((eq_iff g group).0 same)) (here refl (ground (arith, new))),
          later,
        )
        | inr stale ↦ rw stale later
      ])
      | inr differ ↦ rw differ later
    ]

recent_messages-listed :
    (now : ℕ) (group id : Text) (records : Records)
    → IsRecent now group id records
    → recent_messages now group records ≢ []
unfolding recent_messages
recent_messages-listed now group id [] recent = elim recent [ ]
recent_messages-listed now group id ((g, r) ∷ rest) (here same new) =
    ground (arith, eq_refl group, new)
recent_messages-listed now group id ((g, r) ∷ rest) (there h) =
    ground (arith, recent_messages-listed now group id rest h)

-- What is drawn for a group is one of its messages of the last five minutes. Where the group has no such
-- message, it is 1000 for a group whose type begins with guild, and the empty text for any other.
pub get_lazy_messages_id_lem :
    (random now : ℕ) (appid group : Text) (e : EchoMapping) (records : Records)
    → IsRecent now group (get_lazy_messages_id random now appid group e records) records
      ⊎ (((id : Text) → ¬ IsRecent now group id records)
          × (get_lazy_messages_id random now appid group e records ≡ (
              if has_prefix (get_message_type_by_groupid_v2 appid group e) (codes "guild")
              then codes "1000"
              else [])))
unfolding get_lazy_messages_id
get_lazy_messages_id_lem random now appid group e records =
    drawn (recent_messages now group records) refl
  where
    drawn :
        (found : List Text)
        → recent_messages now group records ≡ found
        → IsRecent now group (get_lazy_messages_id random now appid group e records) records
          ⊎ (((id : Text) → ¬ IsRecent now group id records)
              × (get_lazy_messages_id random now appid group e records ≡ (
                  if has_prefix (get_message_type_by_groupid_v2 appid group e) (codes "guild")
                  then codes "1000"
                  else [])))
    drawn [] is = inr (
      λ id recent. recent_messages-listed now group id records recent is,
      rw (is, get_lazy_messages_id) refl,
    )
    drawn (first ∷ rest) is =
        let all = rw is at (recent_messages-All now group records) in
        inl (
          rw (is, get_lazy_messages_id)
            (All-nth_text (λ id. IsRecent now group id records) (random % length (first ∷ rest))
              first rest all))
