-- ===== src/Webui/Cookie.antt =====
-- webui/cookie.go: login cookies with the second when they expire, in the bucket of cookie.db. A cookie is
-- what `uuid.New` makes, and `now` is the Unix time.
use gensokyo_discord.Prelude.{
  ℕ, ◌+◌, ◌%◌, ◌≤◌, ◌<◌, Bool, true, false, none, some, ◌≡◌, refl, Text, ◌==◌, eq_refl, Outcome, ok,
  err, cookie_not_found, cookie_expired, ◌>>=◌, ltb, arith, if◌then◌else◌,
}
use gensokyo_discord.Strconv.{two_63, two_64, row_bytes, read_row}
use gensokyo_discord.Strconv.Bytes.{read_row-row_bytes}
use gensokyo_discord.Bolt.{Bolt, accepts}
use gensokyo_discord.Bolt.Writes.{put_checked, put_checked_accepted}

abbrev pub day : ℕ
day = 86400

-- `time.Now().Unix() > expiration`, for a time that is not negative.
abbrev pub is_over : ℕ → ℕ → Bool
is_over now expiration = if ltb expiration two_63 then ltb expiration now else true

module _ (bolt : Bolt) where
  open bolt use {Bucket, get}

  -- `intToBytes` and `bytesToInt` write and read the eight bytes of a row.
  unfoldable pub generate_cookie : Text → ℕ → Bucket → Outcome (Text × Bucket)
  generate_cookie cookie now b =
      put_checked bolt b cookie (row_bytes ((now + day) % two_64)) >>= λ b'. ok (cookie, b')

  unfoldable pub validate_cookie : Text → ℕ → Bucket → Outcome Bool
  validate_cookie cookie now b = elim (get b cookie) as (λ _. Outcome Bool) [
    | none ↦ err cookie_not_found
    | some bytes ↦
        (read_row bytes >>= λ expiration.
        if is_over now expiration then err cookie_expired else ok true)
  ]

  -- A cookie that the store takes is generated at a time before the year 292 billion, and is then valid
  -- for a day and expired from then on; every other cookie is what it was.
  pub validate-generate_cookie :
      (cookie : Text) (now : ℕ) (b : Bucket)
      → now + day < two_63
      → accepts cookie (row_bytes (now + day)) ≡ true
      → (b' : Bucket) × (generate_cookie cookie now b ≡ ok (cookie, b'))
        × ((later : ℕ) → later ≤ now + day → validate_cookie cookie later b' ≡ ok true)
        × ((later : ℕ) → now + day < later → validate_cookie cookie later b' ≡ err cookie_expired)
        × ((other : Text) (later : ℕ)
            → cookie == other ≡ false
            → validate_cookie other later b' ≡ validate_cookie other later b)
  unfolding generate_cookie validate_cookie
  validate-generate_cookie cookie now b early fits =
      let same : (now + day) % two_64 ≡ now + day = omega arith in
      let (b', e, gets) = put_checked_accepted bolt b cookie (row_bytes (now + day)) fits in
      let back = read_row-row_bytes (now + day) (omega arith) in
      let signed : ltb (now + day) two_63 ≡ true = ground arith in
      (
        b',
        rw (same, e) refl,
        λ later low.
            let fresh : ltb (now + day) later ≡ false = ground arith in
            rw (gets cookie, eq_refl cookie, validate_cookie, back, signed, fresh) refl,
        λ later high.
            let old : ltb (now + day) later ≡ true = ground arith in
            rw (gets cookie, eq_refl cookie, validate_cookie, back, signed, old) refl,
        λ other later apart. rw (gets other, validate_cookie, apart) refl,
      )
