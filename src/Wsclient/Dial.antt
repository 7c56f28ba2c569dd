-- ===== src/Wsclient/Dial.antt =====
-- The token and the dialling loop of `NewWebSocketClient`.
use gensokyo_discord.Prelude.{
  ℕ, zero, suc, ◌+◌, Bool, true, false, Option, none, some, List, [], ◌∷◌, ◌++◌, ◌≡◌, inl, inr,
  refl, select, Text, ◌==◌, codes, ltb, Bool-cases, arith, if◌then◌else◌,
}

-- The first address that is the URL and has a token.
unfoldable pub listed_token : List Text → List Text → Text → Text
listed_token [] tokens url = []
listed_token (a ∷ addresses) [] url = []
listed_token (a ∷ addresses) (t ∷ tokens) url =
    let later = listed_token addresses tokens url in if a == url then t else later

abbrev or_listed : Option Text → Text → Text
or_listed none listed = listed
or_listed (some t) listed = t

-- `param` is the parameter access_token of the URL.
unfoldable pub choose_token : List Text → List Text → Text → Option Text → Text
unfolding listed_token
choose_token addresses tokens url param = or_listed param (listed_token addresses tokens url)

-- The header Authorization.
unfoldable pub authorization : Text → Option Text
authorization token = if token == [] then none else some (codes "Token " ++ token)

pub data Dialled : Type 0 where
  connected : ℕ → Dialled
  exceeded : Dialled

-- `answers k` says whether the attempt `k` succeeds; `retry_count` have failed.
unfoldable pub dial : (ℕ → Bool) → ℕ → ℕ → ℕ → Option Dialled
dial answers max zero retry_count = none
dial answers max (suc fuel) retry_count =
    let rest = dial answers max fuel (retry_count + 1) in
    if answers retry_count
    then some (connected retry_count)
    else if ltb max (retry_count + 1)
    then some exceeded
    else rest

-- The attempts from one on, and what the first that succeeds makes of them.
unfoldable pub attempts : ℕ → ℕ → List ℕ
attempts zero from = []
attempts (suc n) from = from ∷ attempts n (from + 1)

unfoldable pub first_success : List ℕ → Dialled
first_success [] = exceeded
first_success (k ∷ later) = connected k

dial-attempts :
    (answers : ℕ → Bool) (max n from : ℕ)
    → from + n ≡ max
    → dial answers max (suc n) from ≡ some (first_success (select answers (attempts (suc n) from)))
unfolding dial attempts first_success
dial-attempts answers max zero from all = elim (Bool-cases (answers from)) [
  | inl answered ↦ rw answered refl
  | inr failed ↦ let last : ltb max (from + 1) ≡ true = ground arith in rw (failed, last) refl
]
dial-attempts answers max (suc n) from all = elim (Bool-cases (answers from)) [
  | inl answered ↦ rw answered refl
  | inr failed ↦
      let more : ltb max (from + 1) ≡ false = ground arith in
      rw (failed, more) (dial-attempts answers max n (from + 1) (omega arith))
]

-- With at most `max` retries the loop ends within `max + 1` attempts: it returns the first attempt that
-- succeeds of those from 0 to `max`, and gives up where all of them fail.
pub dial_ends :
    (answers : ℕ → Bool) (max : ℕ)
    → dial answers max (max + 1) 0 ≡ some (first_success (select answers (attempts (max + 1) 0)))
dial_ends answers max =
    let e : max + 1 ≡ suc max = omega arith in rw e (dial-attempts answers max max 0 (omega arith))
