-- ===== src/Shorturl/Laws.antt =====
-- What a short link leads to.
use gensokyo_discord.Prelude.{
  ℕ, zero, suc, ◌+◌, ◌<◌, true, false, Option, none, some, ◌≡◌, refl, ◌∙◌, Text, ◌==◌, eq_iff,
  eq_refl, ok, Option-cases, Bool-cases, inl, inr, arith,
}
use gensokyo_discord.Config.{Settings, get_lotus_value}
use gensokyo_discord.Http.{Fetch}
use gensokyo_discord.Bolt.{Bolt, accepts}
use gensokyo_discord.Bolt.Writes.{put_checked_accepted}
use gensokyo_discord.Shorturl.{
  exists_in_db, first_free, choose_short, generate_short_url, get_long_url_from_db, store_url,
  redirect_from_short_url, redirect_target,
}

module _ (bolt : Bolt) where
  open bolt use {Bucket, get}

  -- The loop ends at a free string, when one of the strings that the fuel reaches is free.
  first_free-ends :
      (fuel : ℕ) (random : ℕ → Text) (start n : ℕ) (b : Bucket)
      → n < fuel
      → get b (random (start + n)) ≡ none
      → (i : ℕ) × (first_free bolt fuel random start b ≡ some (random i))
        × (get b (random i) ≡ none)
  unfolding first_free exists_in_db
  first_free-ends zero random start n b few free = absurd (omega arith)
  first_free-ends (suc fuel) random start zero b few free =
      let same : start + zero ≡ start = omega arith in
      let unused = rw same at free in (start, rw unused refl, unused)
  first_free-ends (suc fuel) random start (suc m) b few free =
      elim (Option-cases (get b (random start))) [
        | inl (held, is) ↦
            let same : start + suc m ≡ start + 1 + m = omega arith in
            rw is (first_free-ends fuel random (start + 1) m b (omega arith) (rw same at free))
        | inr unused ↦ (start, rw unused refl, unused)
      ]

  -- What is chosen is the digest's string or a random one, and it is free.
  choose_short-free :
      (fuel : ℕ) (random : ℕ → Text) (hashed : Text → Text) (long : Text) (n : ℕ) (b : Bucket)
      → n < fuel
      → get b (random n) ≡ none
      → accepts (hashed long) long ≡ true
      → ((i : ℕ) → accepts (random i) long ≡ true)
      → (short : Text) × (choose_short bolt fuel random hashed long b ≡ some short)
        × (get b short ≡ none)
        × (accepts short long ≡ true)
  unfolding choose_short exists_in_db
  choose_short-free fuel random hashed long n b few free fits_hash fits =
      elim (Option-cases (get b (hashed long))) [
        | inl (held, is) ↦
            let from_zero : 0 + n ≡ n = omega arith in
            let (i, ends, unused) = first_free-ends fuel random 0 n b few (rw from_zero free) in
            (random i, rw is ends, unused, fits i)
        | inr unused ↦ (hashed long, rw unused refl, unused, fits_hash)
      ]

  -- If one of the random strings that the fuel reaches is free and the store accepts the link under
  -- every string that can be chosen, a short link is made: it was free before, it now redirects to the
  -- link, with a scheme in front if it has none, and every link made before still leads where it did.
  pub generate_short_url_lem :
      (fuel : ℕ) (random : ℕ → Text) (hashed : Text → Text) (long : Text) (n : ℕ) (b : Bucket)
      (s : Option Settings) (fetch : Fetch)
      → get_lotus_value s ≡ false
      → n < fuel
      → get b (random n) ≡ none
      → accepts (hashed long) long ≡ true
      → ((i : ℕ) → accepts (random i) long ≡ true)
      → (short : Text) × (b' : Bucket) × (generate_short_url bolt fuel random hashed long b
          ≡ some (short, b'))
        × (get b short ≡ none)
        × (redirect_from_short_url bolt s fetch short b' ≡ ok (301, redirect_target long))
        × ((other target : Text)
            → get_long_url_from_db bolt s fetch other b ≡ ok target
            → get_long_url_from_db bolt s fetch other b' ≡ ok target)
  unfolding generate_short_url store_url get_long_url_from_db redirect_from_short_url
  generate_short_url_lem fuel random hashed long n b s fetch local_db few free fits_hash fits =
      let (short, chosen, unused, fitting) =
        choose_short-free fuel random hashed long n b few free fits_hash fits in
      let (b', stored, at) = put_checked_accepted bolt b short long fitting in
      let here : get b' short ≡ some long = at short ∙ rw (eq_refl short) refl in
      (
        short,
        b',
        rw (chosen, generate_short_url, stored) refl,
        unused,
        rw (local_db, redirect_from_short_url, get_long_url_from_db, here) refl,
        λ other target found. elim (Bool-cases (short == other)) [
          | inl same ↦
              (let equal = (eq_iff short other).0 same in
                let missing = (rw equal at unused) in
                let clash = (rw (local_db, missing) at found) in cc)
          | inr differ ↦
              (let kept : get b' other ≡ get b other = at other ∙ rw differ refl in
                rw (local_db, kept) (rw local_db at found))
        ],
      )
