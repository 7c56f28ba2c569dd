-- ===== src/Idmap/RowId/Bounds.antt =====
-- How large the row number is that a hash gives.
use gensokyo_discord.Prelude.{
  ℕ, ◌^◌, ◌≤◌, ◌<◌, true, ◌≡◌, Text, ok, err, leb, length, take, every, every-select, every-take,
  le→leb, leb→le, ok-injective, sym, ◌∙◌, not_enough_digits, Bool-cases, inl, inr, length-take,
  arith,
}
use gensokyo_discord.Strconv.{IsWord, two_63, is_digit}
use gensokyo_discord.Strconv.Scan.{parse_int-bounded, parse_int-IsWord}
use gensokyo_discord.Idmap.RowId.{hash_digits, generate_row_id}

module _ (md5_hex : Text → Text) where
  -- A hash with at least `n` digits gives a row number of at most `n` decimal digits, for every `n`
  -- from 1 to 18: no int64 overflow and no parse error can occur.
  pub generate_row_id_bounded :
      (id : Text) (n : ℕ)
      → 1 ≤ n
      → n ≤ 18
      → n ≤ length (hash_digits md5_hex id)
      → (r : ℕ) × (generate_row_id md5_hex id n ≡ ok r) × (r < 10 ^ n)
  unfolding generate_row_id
  generate_row_id_bounded id n lo hi enough =
      let some_digits = take n (hash_digits md5_hex id) in
      let long : length some_digits ≡ n = length-take n (hash_digits md5_hex id) enough in
      let all_digits : every is_digit some_digits ≡ true =
        every-take is_digit n (hash_digits md5_hex id) (every-select is_digit (md5_hex id)) in
      let (r, e, lt) = parse_int-bounded some_digits all_digits (omega arith) (omega arith) in
      (r, rw (le→leb n (length (hash_digits md5_hex id)) enough) e, rw long at lt)

  -- A row number that comes from a hash is an int64.
  pub generate_row_id-IsWord :
      (id : Text) (n r : ℕ) → generate_row_id md5_hex id n ≡ ok r → IsWord r
  unfolding generate_row_id
  generate_row_id-IsWord id n r h = elim (Bool-cases (leb n (length (hash_digits md5_hex id)))) [
    | inl enough ↦ parse_int-IsWord _ r (rw enough at h)
    | inr short ↦ let e : err not_enough_digits ≡ ok r = rw short at h in cc
  ]

  -- A row number of 9 digits is not negative.
  pub generate_row_id-two_63 :
      (id : Text) (r : ℕ) → generate_row_id md5_hex id 9 ≡ ok r → r < two_63
  unfolding generate_row_id
  generate_row_id-two_63 id r h = elim (Bool-cases (leb 9 (length (hash_digits md5_hex id)))) [
    | inl enough ↦
        let (v, e, lt) =
          generate_row_id_bounded id 9 (omega arith) (omega arith)
            (leb→le 9 (length (hash_digits md5_hex id)) enough) in
        let same : v ≡ r = ok-injective (sym e ∙ h) in omega arith
    | inr short ↦ let e : err not_enough_digits ≡ ok r = rw short at h in cc
  ]
