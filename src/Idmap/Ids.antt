-- ===== src/Idmap/Ids.antt =====
-- The single identifiers of idmap/service.go: `StoreID`, `SimplifiedStoreID`, `RetrieveRowByID`,
-- `RetrieveRealValue`, `RetrieveVirtualValue` and `UpdateVirtualValue`. Each is one bolt
-- transaction on the bucket `ids`; an error or a panic leaves the bucket as it was.
pub mod Consistent
pub mod Store
pub mod RoundTrip
pub mod Counter
pub mod Update
pub mod Collision
use gensokyo_discord.Prelude.{
  ℕ, ◌+◌, ◌%◌, Bool, true, false, Option, none, some, is_some, Text, Outcome, ok, err, ◌>>=◌,
  some_or, key_not_found, no_unique_row, row_missing, row_taken, real_missing, virtual_missing,
  if◌then◌else◌, Option-cases, inl, inr,
}
use gensokyo_discord.Strconv.{format_int, row_bytes, read_row, two_64}
use gensokyo_discord.Bolt.{Bolt}
use gensokyo_discord.Bolt.Writes.{put_silently, put_checked}
use gensokyo_discord.Idmap.Keys.{counter_key, row_text_key, row_key}
use gensokyo_discord.Idmap.RowId.{generate_row_id}

module _ (bolt : Bolt) where
  open bolt use {Bucket, get, delete}

  -- 9 digits of the hash, or 10 if that row is taken.
  unfoldable pub hashed_row : (Text → Text) → Text → Bucket → Outcome ℕ
  hashed_row md5_hex id b = do
    row ← generate_row_id md5_hex id 9
    if is_some (get b (row_key row))
        then (do
          longer ← generate_row_id md5_hex id 10
          if is_some (get b (row_key longer)) then err no_unique_row else ok longer)
        else ok row

  abbrev after_counter : Option Text → Outcome ℕ
  after_counter none = ok 1
  after_counter (some bytes) = do row ← read_row bytes; ok ((row + 1) % two_64)

  -- One more than the row that was given out last.
  unfoldable pub next_row : Bucket → Outcome ℕ
  next_row b = after_counter (get b counter_key)

  -- `hash` is config.GetHashIDValue(). The errors of the three writes are dropped.
  unfoldable pub write_row : Bool → Text → ℕ → Bucket → Bucket
  write_row hash id row b =
      let counted = if hash then b else put_silently bolt b counter_key (row_bytes row) in
      let forward = put_silently bolt counted id (row_bytes row) in
      put_silently bolt forward (row_key row) id

  -- the branch of `StoreID` for an identifier that is not there yet
  unfoldable pub store_new : (Text → Text) → Bool → Text → Bucket → Outcome (ℕ × Bucket)
  unfolding hashed_row next_row write_row
  store_new md5_hex hash id b = do
    row ← if hash then hashed_row md5_hex id b else next_row b
    ok (row, write_row hash id row b)

  unfoldable pub store_id : (Text → Text) → Bool → Text → Bucket → Outcome (ℕ × Bucket)
  unfolding store_new
  store_id md5_hex hash id b = elim (get b id) [
    | some bytes ↦ do row ← read_row bytes; ok (row, b)
    | none ↦ store_new md5_hex hash id b
  ]

  -- Only the way back from the row to the identifier is written.
  unfoldable pub simplified_store_id : (Text → Text) → Text → Bucket → Outcome (ℕ × Bucket)
  unfolding hashed_row
  simplified_store_id md5_hex id b = do
    row ← hashed_row md5_hex id b
    ok (row, put_silently bolt b (row_key row) id)

  unfoldable pub retrieve_row_by_id : Text → Bucket → Outcome Text
  retrieve_row_by_id rowid b = some_or (get b (row_text_key rowid)) key_not_found

  -- the virtual value in decimal, and the real value
  unfoldable pub retrieve_real_value : ℕ → Bucket → Outcome (Text × Text)
  retrieve_real_value row b = do
    id ← some_or (get b (row_key row)) (real_missing row)
    ok (format_int row, id)

  unfoldable pub retrieve_virtual_value : Text → Bucket → Outcome (Text × Text)
  retrieve_virtual_value real b = do
    bytes ← some_or (get b real) virtual_missing
    row ← read_row bytes
    ok (real, format_int row)

  unfoldable pub update_virtual_value : ℕ → ℕ → Bucket → Outcome Bucket
  update_virtual_value old_row new_row b = do
    id ← some_or (get b (row_key old_row)) (row_missing old_row)
    if is_some (get b (row_key new_row)) then err (row_taken new_row) else do
      forward ← put_checked bolt b id (row_bytes new_row)
      put_checked bolt (delete forward (row_key old_row)) (row_key new_row) id
