-- ===== src/Shorturl.antt =====
-- shorturl/shorturl.go on the local database: how a short link is chosen, stored and followed. The
-- digest's six hexadecimal digits and the random strings are parameters.
pub mod Laws
use gensokyo_discord.Prelude.{
  ℕ, zero, suc, ◌+◌, Bool, true, false, ◌||◌, Option, none, some, is_some, List, [], ◌∷◌, ◌++◌,
  Text, ◌==◌, codes, has_prefix, Outcome, ok, err, panicked, missing_key, ◌>>=◌, if◌then◌else◌,
}
use gensokyo_discord.Config.{Settings, get_lotus_value}
use gensokyo_discord.Http.{Fetch, Object, Json, text, number, other, get_ok_json, field}
use gensokyo_discord.Bolt.{Bolt}
use gensokyo_discord.Bolt.Writes.{put_checked}
use gensokyo_discord.Idmap.Remote.Url.{server_url}

-- `response[key].(string)` without a second result
unfoldable pub asserted_text : Option Json → Outcome Text
asserted_text none = panicked
asserted_text (some (text s)) = ok s
asserted_text (some (number n shown)) = panicked
asserted_text (some (other shown)) = panicked

-- The address that a browser is sent to.
unfoldable pub redirect_target : Text → Text
redirect_target long =
    if has_prefix long (codes "http://") || has_prefix long (codes "https://")
    then long
    else codes "https://" ++ long

module _ (bolt : Bolt) where
  open bolt use {Bucket, get}

  unfoldable pub exists_in_db : Text → Bucket → Bool
  exists_in_db short b = is_some (get b short)

  unfoldable pub store_url : Text → Text → Bucket → Outcome Bucket
  store_url short long b = put_checked bolt b short long

  -- The loop over random strings, from the string with this number on; `none` where `fuel` strings
  -- were all in use.
  unfoldable pub first_free : (fuel : ℕ) → (ℕ → Text) → ℕ → Bucket → Option Text
  unfolding exists_in_db
  first_free zero random start b = none
  first_free (suc fuel) random start b =
      let rest = first_free fuel random (start + 1) b in
      if exists_in_db (random start) b then rest else some (random start)

  -- the short form of a link, before it is stored
  unfoldable pub choose_short : ℕ → (ℕ → Text) → (Text → Text) → Text → Bucket → Option Text
  unfolding exists_in_db first_free
  choose_short fuel random hashed long b =
      if exists_in_db (hashed long) b then first_free fuel random 0 b else some (hashed long)

  -- The part of `GenerateShortURL` without `lotus`; `none` is a loop that has not ended.
  unfoldable pub generate_short_url :
      ℕ → (ℕ → Text) → (Text → Text) → Text → Bucket → Option (Text × Bucket)
  unfolding choose_short store_url
  generate_short_url fuel random hashed long b = elim (choose_short fuel random hashed long b) [
    | none ↦ none
    | some short ↦ elim (store_url short long b) as (λ _. Option (Text × Bucket)) [
      | ok b' ↦ some (short, b')
      | err e ↦ some ([], b)
      | panicked ↦ none
    ]
  ]

  unfoldable pub get_long_url_from_db : Option Settings → Fetch → Text → Bucket → Outcome Text
  unfolding asserted_text field
  get_long_url_from_db s fetch short b =
      if get_lotus_value s
      then (do
        reply ← get_ok_json fetch (server_url s (codes "/url/" ++ short))
        asserted_text (field (codes "longURL") reply))
      else elim (get b short) [ none ↦ err missing_key | some long ↦ ok long ]

  -- `RedirectFromShortURLHandler`: the status and the address.
  unfoldable pub redirect_from_short_url :
      Option Settings → Fetch → Text → Bucket → Outcome (ℕ × Text)
  unfolding get_long_url_from_db redirect_target
  redirect_from_short_url s fetch short b =
      elim (get_long_url_from_db s fetch short b) as (λ _. Outcome (ℕ × Text)) [
        | ok long ↦ ok (301, redirect_target long)
        | err e ↦ ok (404, [])
        | panicked ↦ panicked
      ]
