-- ===== src/Server/GetId/Agreement.antt =====
-- A client instance and a serving instance: what idmap/service.go computes with `lotus` on, where the
-- requests reach `GetIDHandler` of an instance with `lotus` off.
pub mod Single
pub mod Broken
use gensokyo_discord.Prelude.{
  ℕ, Option, none, some, List, [], ◌∷◌, Text, codes, Error, Outcome, ok, err, panicked,
  server_error, decode_failed, send_failed,
}
use gensokyo_discord.Http.{Json, text, number, Object, Response}
use gensokyo_discord.Bolt.{Bolt}
use gensokyo_discord.Server.GetId.Answer.{Db, Field, Reply, int, str, message}

-- How a reply's values arrive: what becomes of an int64 as a float64, what the verb %v prints for
-- that, and the text of an error.
pub record Wire : Type 0 where
  pub round : ℕ → ℕ
  pub shown : ℕ → Text
  pub error_text : Error → Text

module _ (w : Wire) where
  abbrev pub arrive : Field → Json
  arrive (int n) = number (w.round n) (w.shown n)
  arrive (str s) = text s
  arrive (message e) = text (w.error_text e)

  abbrev pub arrive_all : List (Text × Field) → Object
  arrive_all [] = []
  arrive_all ((k, f) ∷ rest) = (k, arrive f) ∷ arrive_all rest

  -- A handler that writes nothing sends an empty body, which is no JSON.
  abbrev body_of : List (Text × Field) → Option Object
  body_of [] = none
  body_of (f ∷ rest) = some (arrive_all (f ∷ rest))

  -- What http.Get returns for what the handler did. After a panic gin's recovery sends an empty 500.
  abbrev pub reached : {bolt : Bolt} → Outcome (Reply × Db bolt) → Option Response
  reached (ok (reply, db)) = some (record { status = reply.status; body = body_of reply.fields })
  reached (err e) = some (record { status = 500; body = none })
  reached panicked = some (record { status = 500; body = none })

-- What a client makes of a result of the serving instance.
abbrev pub relayed {ℓ} : {A : Type ℓ} → Outcome A → Outcome A
relayed (ok a) = ok a
relayed (err e) = err server_error
relayed panicked = err decode_failed
