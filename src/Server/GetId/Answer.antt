-- ===== src/Server/GetId/Answer.antt =====
-- The state that the endpoint works on, and what it answers.
use gensokyo_discord.Prelude.{
  ℕ, List, Option, [], ◌∷◌, Text, codes, Error, Outcome, ok, err, panicked,
}
use gensokyo_discord.Strconv.{parse_int}
use gensokyo_discord.Bolt.{Bolt}

-- The two buckets of idmap.db.
pub record Db (bolt : Bolt) : Type 0 where
  pub ids : Bolt.Bucket bolt
  pub settings : Option (Bolt.Bucket bolt)

-- A value of a gin.H: an int64, a string, or the text of an error.
pub data Field : Type 0 where
  int : ℕ → Field
  str : Text → Field
  message : Error → Field

pub record Reply : Type 0 where
  pub status : ℕ
  pub fields : List (Text × Field)

abbrev pub answer : ℕ → List (Text × Field) → Reply
answer status fields = record { status = status; fields = fields }

-- http.StatusBadRequest with a text
abbrev pub bad_request : Text → Reply
bad_request why = answer 400 ((codes "error", str why) ∷ [])

module _ {A : Type 0} (bolt : Bolt) where
  -- An error is answered with http.StatusInternalServerError, and a value by `f`.
  abbrev pub replied : Outcome A → Db bolt → (A → Reply × Db bolt) → Outcome (Reply × Db bolt)
  replied (ok a) db f = ok (f a)
  replied (err e) db f = ok (answer 500 ((codes "error", message e) ∷ []), db)
  replied panicked db f = panicked

-- strconv.ParseInt of a parameter, answered with http.StatusBadRequest where it fails.
abbrev pub continue_int :
    (bolt : Bolt)
    → Outcome ℕ
    → Text
    → Db bolt
    → (ℕ → Outcome (Reply × Db bolt))
    → Outcome (Reply × Db bolt)
continue_int bolt (ok n) why db k = k n
continue_int bolt (err e) why db k = ok (bad_request why, db)
continue_int bolt panicked why db k = panicked

abbrev pub with_int :
    (bolt : Bolt)
    → Text
    → Text
    → Db bolt
    → (ℕ → Outcome (Reply × Db bolt))
    → Outcome (Reply × Db bolt)
with_int bolt s why db k = continue_int bolt (parse_int s) why db k
