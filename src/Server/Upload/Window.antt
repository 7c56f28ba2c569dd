-- ===== src/Server/Upload/Window.antt =====
-- The rate limit as a sliding window over the history of all requests.
use gensokyo_discord.Prelude.{
  ℕ, ◌-◌, ◌≤◌, Bool, true, false, Option, List, [], ◌∷◌, ◌++◌, ◌≡◌, refl, sym, ap, ◌∙◌, Text, ◌==◌,
  eq_iff, eq_refl, length, select, append-nil, leb, ltb, Bool-cases, inl, inr, arith, if◌then◌else◌,
}
use gensokyo_discord.Config.{Settings, get_image_limit_b}
use gensokyo_discord.Server.Upload.{
  Counts, request_interval, drop_expired, check_and_update_rate_limit,
}

-- Not older than a minute.
abbrev pub within : ℕ → ℕ → Bool
within now t = leb (now - t) request_interval

-- The times of the requests of one address, in a history with the latest request last.
unfoldable pub times_of : Text → List (Text × ℕ) → List ℕ
times_of ip [] = []
times_of ip ((k, t) ∷ history) =
    let rest = times_of ip history in if k == ip then t ∷ rest else rest

unfoldable pub Ascending : ℕ → ℕ → List ℕ → Type 0
Ascending lo hi [] = lo ≤ hi
Ascending lo hi (t ∷ times) = (lo ≤ t) × Ascending t hi times

-- The state counts what the history counts, now and at each later time.
pub record Refines (hi : ℕ) (counts : Counts) (history : List (Text × ℕ)) : Type 0 where
  pub ascending : (ip : Text) → Ascending 0 hi (counts ip)
  pub same :
      (ip : Text) (now : ℕ)
      → hi ≤ now
      → select (within now) (counts ip) ≡ select (within now) (times_of ip history)

select_all :
    (now lo hi : ℕ) (times : List ℕ)
    → within now lo ≡ true
    → Ascending lo hi times
    → select (within now) times ≡ times
unfolding Ascending
select_all now lo hi [] recent h = refl
select_all now lo hi (t ∷ times) recent (low, h) =
    let still : within now t ≡ true = ground arith in
    rw (still, select_all now t hi times still h) refl

drop_expired-select :
    (now lo hi : ℕ) (times : List ℕ)
    → Ascending lo hi times
    → drop_expired now times ≡ select (within now) times
unfolding drop_expired Ascending
drop_expired-select now lo hi [] h = refl
drop_expired-select now lo hi (t ∷ times) (low, h) = elim (Bool-cases (within now t)) [
  | inl recent ↦
      let kept : ltb request_interval (now - t) ≡ false = ground arith in
      rw (recent, kept, select_all now t hi times recent h) refl
  | inr old ↦
      let dropped : ltb request_interval (now - t) ≡ true = ground arith in
      rw (old, dropped) (drop_expired-select now t hi times h)
]

Ascending-add :
    (lo hi now : ℕ) (times : List ℕ)
    → hi ≤ now
    → Ascending lo hi times
    → Ascending lo now (times ++ (now ∷ []))
unfolding Ascending
Ascending-add lo hi now [] late h = (omega arith, omega arith)
Ascending-add lo hi now (t ∷ times) late (low, h) = (low, Ascending-add t hi now times late h)

Ascending-lower :
    (lo lo' hi : ℕ) (times : List ℕ) → lo ≤ lo' → Ascending lo' hi times → Ascending lo hi times
unfolding Ascending
Ascending-lower lo lo' hi [] low h = omega arith
Ascending-lower lo lo' hi (t ∷ times) low (l, h) = (omega arith, h)

Ascending-later :
    (lo hi now : ℕ) (times : List ℕ) → hi ≤ now → Ascending lo hi times → Ascending lo now times
unfolding Ascending
Ascending-later lo hi now [] late h = omega arith
Ascending-later lo hi now (t ∷ times) late (l, h) = (l, Ascending-later t hi now times late h)

Ascending-select :
    (p : ℕ → Bool) (lo hi : ℕ) (times : List ℕ)
    → Ascending lo hi times
    → Ascending lo hi (select p times)
unfolding Ascending
Ascending-select p lo hi [] h = h
Ascending-select p lo hi (t ∷ times) (l, h) = elim (Bool-cases (p t)) [
  | inl kept ↦ rw kept (l, Ascending-select p t hi times h)
  | inr gone ↦
      rw gone (Ascending-lower lo t hi (select p times) l (Ascending-select p t hi times h))
]

select-append : (p : ℕ → Bool) (xs ys : List ℕ) → select p (xs ++ ys) ≡ select p xs ++ select p ys
select-append p [] ys = refl
select-append p (x ∷ xs) ys = elim (Bool-cases (p x)) [
  | inl kept ↦ rw (kept, select-append p xs ys) refl
  | inr gone ↦ rw (gone, select-append p xs ys) refl
]

-- Whatever is recent later was recent before.
select-later :
    (now later : ℕ) (xs : List ℕ)
    → now ≤ later
    → select (within later) (select (within now) xs) ≡ select (within later) xs
select-later now later [] h = refl
select-later now later (x ∷ xs) h = elim (Bool-cases (within now x)) [
  | inl recent ↦ elim (Bool-cases (within later x)) [
    | inl still ↦ rw (recent, still, select-later now later xs h) refl
    | inr gone ↦ rw (recent, gone, select-later now later xs h) refl
  ]
  | inr old ↦
      let gone : within later x ≡ false = ground arith in
      rw (old, gone, select-later now later xs h) refl
]

times_of-add :
    (ip k : Text) (t : ℕ) (history : List (Text × ℕ))
    → times_of ip (history ++ ((k, t) ∷ []))
      ≡ times_of ip history ++ (if k == ip then t ∷ [] else [])
unfolding times_of
times_of-add ip k t [] = refl
times_of-add ip k t ((j, u) ∷ history) = elim (Bool-cases (j == ip)) [
  | inl own ↦ rw (own, times_of-add ip k t history) refl
  | inr other ↦ rw (other, times_of-add ip k t history) refl
]

kept-select :
    (now hi : ℕ) (times : List ℕ)
    → hi ≤ now
    → Ascending 0 hi times
    → drop_expired now (times ++ (now ∷ [])) ≡ select (within now) times ++ (now ∷ [])
kept-select now hi times late h =
    let last : within now now ≡ true = ground arith in
    drop_expired-select now 0 now (times ++ (now ∷ [])) (Ascending-add 0 hi now times late h)
    ∙ rw (select-append (within now) times (now ∷ []), last) refl

-- The empty state counts the empty history.
pub no_counts-Refines : Refines 0 (λ ip. []) []
unfolding Ascending times_of
no_counts-Refines = record { ascending = λ ip. omega arith; same = λ ip now h. refl }

-- For a state that counts the requests of a history as a minute's window does, and a request that is not
-- older than these, the test of the rate limit is whether the requests of its address within the last
-- minute, itself included, are at most the configured number; and the new state counts the history with
-- the request. So what the loop drops is never missed.
pub rate_limit-Refines :
    (s : Option Settings) (hi : ℕ) (counts : Counts) (history : List (Text × ℕ)) (ip : Text)
    (now : ℕ)
    → Refines hi counts history
    → hi ≤ now
    → ((check_and_update_rate_limit s ip now counts).0
        ≡ leb
            (length (select (within now) (times_of ip (history ++ ((ip, now) ∷ [])))))
            (get_image_limit_b s))
      × Refines now (check_and_update_rate_limit s ip now counts).1 (history ++ ((ip, now) ∷ []))
unfolding check_and_update_rate_limit
rate_limit-Refines s hi counts history ip now r late =
    let last : within now now ≡ true = ground arith in
    let kept = kept-select now hi (counts ip) late (r.ascending ip) in
    let window : select (within now) (times_of ip (history ++ ((ip, now) ∷ [])))
        ≡ drop_expired now (counts ip ++ (now ∷ [])) =
      rw
        (
          times_of-add ip ip now history,
          eq_refl ip,
          select-append (within now) (times_of ip history) (now ∷ []),
          last,
        )
        (ap (λ l. l ++ (now ∷ [])) (sym (r.same ip now late)) ∙ sym kept) in
    (
      rw window refl,
      record {
        ascending = λ k. elim (Bool-cases (k == ip)) [
          | inl own ↦
              rw (own, kept)
                (Ascending-add 0 hi now (select (within now) (counts ip)) late
                  (Ascending-select (within now) 0 hi (counts ip) (r.ascending ip)))
          | inr other ↦ rw other (Ascending-later 0 hi now (counts k) late (r.ascending k))
        ];
        same = λ k later after. elim (Bool-cases (k == ip)) [
          | inl own ↦
              (let e : k ≡ ip = (eq_iff k ip).0 own in
                rw
                  (
                    own,
                    kept,
                    e,
                    times_of-add ip ip now history,
                    eq_refl ip,
                    select-append (within later) (times_of ip history) (now ∷ []),
                    select-append (within later) (select (within now) (counts ip)) (now ∷ []),
                  )
                  (ap (λ l. l ++ select (within later) (now ∷ []))
                    (select-later now later (counts ip) after ∙ r.same ip later (omega arith))))
          | inr other ↦
              (let apart : ip == k ≡ false = ground (arith, eq_iff ip k, eq_iff k ip) in
                rw (other, times_of-add k ip now history, apart, append-nil (times_of k history))
                  (r.same k later (omega arith)))
        ];
      },
    )
