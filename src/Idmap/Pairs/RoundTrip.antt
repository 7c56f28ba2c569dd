-- ===== src/Idmap/Pairs/RoundTrip.antt =====
-- Storing pairs, and reading them back.
use gensokyo_discord.Prelude.{
  ℕ, ◌≤◌, ◌<◌, Bool, true, false, not, ◌&&◌, none, some, [], ◌∷◌, ◌++◌, ◌≡◌, ◌≢◌, refl, sym, ap,
  Text, ◌==◌, eq_iff, eq_refl, ok, if◌then◌else◌, split, split_none, split-append, contains_byte,
  leb, length, length-append, arith, Bool-cases, inl, inr,
}
use gensokyo_discord.Strconv.{format_int, two_63}
use gensokyo_discord.Strconv.RoundTrip.{length-format_int, format_int-no_colon}
use gensokyo_discord.Bolt.{Bolt, accepts}
use gensokyo_discord.Bolt.Writes.{put_silently, get-put_silently}
use gensokyo_discord.Idmap.Keys.{pair_key}
use gensokyo_discord.Idmap.RowId.{generate_row_id}
use gensokyo_discord.Idmap.RowId.Bounds.{generate_row_id-two_63}
use gensokyo_discord.Idmap.Pairs.{
  two_parts, store_id_pro, retrieve_row_by_id_pro, retrieve_virtual_value_pro,
  retrieve_real_value_pro,
}
use gensokyo_discord.Idmap.Pairs.Scan.{scan_rows-pair_key}

-- A part of a pair: without a colon, and short enough for a key of two.
unfoldable pub is_part : Text → Bool
is_part id = not (contains_byte b':' id) && leb (length id) 16000

pub two_parts-pair_key :
    (a b : Text)
    → contains_byte b':' a ≡ false
    → contains_byte b':' b ≡ false
    → two_parts (split (pair_key a b) b':') ≡ ok (a, b)
two_parts-pair_key a b ha hb = rw (split-append a b b':' ha, split_none b b':' hb)

pub differ : (s t : Text) → s ≢ t → s == t ≡ false
differ s t distinct = ground (arith, eq_iff s t)

is_part-no_colon : (id : Text) → is_part id ≡ true → contains_byte b':' id ≡ false
unfolding is_part
is_part-no_colon id h = ground arith

append_cons_ne_nil : (id : Text) (c : ℕ) (s : Text) → (id ++ (c ∷ s)) == [] ≡ false
append_cons_ne_nil [] c s = refl
append_cons_ne_nil (x ∷ id) c s = refl

pub accepts_pair :
    (a b c d : Text)
    → length a ≤ 16000
    → length b ≤ 16000
    → length c ≤ 16000
    → length d ≤ 16000
    → accepts (pair_key a b) (pair_key c d) ≡ true
unfolding accepts
accepts_pair a b c d ha hb hc hd =
    ground
      (arith, append_cons_ne_nil a b':' b, length-append a (b':' ∷ b), length-append c (b':' ∷ d))

pub is_part-short : (id : Text) → is_part id ≡ true → length id ≤ 16000
unfolding is_part
is_part-short id h = ground arith

module _ (bolt : Bolt) where
  open bolt use {Bucket, get}

  -- The bucket maps a pair and its rows to each other.
  pub record IsPaired (b : Bucket) (id subid : Text) (row subrow : ℕ) : Type 0 where
    pub forward : get b (pair_key id subid) ≡ some (pair_key (format_int row) (format_int subrow))
    pub backward : get b (pair_key (format_int row) (format_int subrow)) ≡ some (pair_key id subid)
    pub row_bound : row < two_63
    pub subrow_bound : subrow < two_63

  -- The four readers agree on a pair and its rows.
  pub record IsReadable (b : Bucket) (id subid : Text) (row subrow : ℕ) : Type 0 where
    pub by_row : retrieve_row_by_id_pro bolt (format_int row) (format_int subrow) b ≡ ok (id, subid)
    pub virtual :
        retrieve_virtual_value_pro bolt id subid b ≡ ok (format_int row, format_int subrow)
    pub real : retrieve_real_value_pro bolt row subrow b ≡ ok (id, subid)
    pub again :
        (md5_hex : Text → Text) → store_id_pro bolt md5_hex id subid b ≡ ok ((row, subrow), b)

  pub paired-IsReadable :
      (b : Bucket) (id subid : Text) (row subrow : ℕ)
      → is_part id ≡ true
      → is_part subid ≡ true
      → IsPaired b id subid row subrow
      → IsReadable b id subid row subrow
  unfolding retrieve_row_by_id_pro retrieve_virtual_value_pro retrieve_real_value_pro store_id_pro
  paired-IsReadable b id subid row subrow part subpart held =
      let parts =
        two_parts-pair_key id subid (is_part-no_colon id part) (is_part-no_colon subid subpart) in
      let rows =
        two_parts-pair_key (format_int row) (format_int subrow) (format_int-no_colon row)
          (format_int-no_colon subrow) in
      record {
        by_row = rw held.backward parts;
        virtual = rw held.forward rows;
        real = rw held.backward parts;
        again = λ md5_hex. rw (
          held.forward,
          store_id_pro,
          scan_rows-pair_key row subrow held.row_bound held.subrow_bound,
        );
      }

  -- What the bucket holds at any key after a new pair was written.
  get-store_id_pro :
      (b : Bucket) (id subid : Text) (row subrow : ℕ) (j : Text)
      → is_part id ≡ true
      → is_part subid ≡ true
      → let key = pair_key id subid in
        let rows = pair_key (format_int row) (format_int subrow) in
        get (put_silently bolt (put_silently bolt b key rows) rows key) j
        ≡ (if rows == j then some key else if key == j then some rows else get b j)
  get-store_id_pro b id subid row subrow j part subpart =
      let key = pair_key id subid in
      let rows = pair_key (format_int row) (format_int subrow) in
      let low : length (format_int row) ≤ 16000 = omega (arith, length-format_int row) in
      let low_sub : length (format_int subrow) ≤ 16000 = omega (arith, length-format_int subrow) in
      let short = is_part-short id part in
      let subshort = is_part-short subid subpart in
      rw (
        get-put_silently bolt (put_silently bolt b key rows) rows key j,
        accepts_pair (format_int row) (format_int subrow) id subid low low_sub short subshort,
        get-put_silently bolt b key rows j,
        accepts_pair id subid (format_int row) (format_int subrow) short subshort low low_sub,
      )

  module _ (md5_hex : Text → Text) (id subid : Text) (b : Bucket) (row subrow : ℕ)
      (part : is_part id ≡ true) (subpart : is_part subid ≡ true)
      (new : get b (pair_key id subid) ≡ none) (hashed : generate_row_id md5_hex id 9 ≡ ok row)
      (subhashed : generate_row_id md5_hex subid 9 ≡ ok subrow) where
    abbrev rows_key : Text
    rows_key = pair_key (format_int row) (format_int subrow)

    abbrev written : Bucket
    written =
        put_silently bolt (put_silently bolt b (pair_key id subid) rows_key) rows_key
          (pair_key id subid)

    pub store_id_pro_new : store_id_pro bolt md5_hex id subid b ≡ ok ((row, subrow), written)
    unfolding store_id_pro
    store_id_pro_new = rw (new, store_id_pro, hashed, subhashed)

    at_forward : get written (pair_key id subid) ≡ some rows_key
    at_forward = elim (Bool-cases (rows_key == pair_key id subid)) [
      | inl same ↦
          rw (get-store_id_pro b id subid row subrow (pair_key id subid) part subpart, same)
            (ap some (sym ((eq_iff rows_key (pair_key id subid)).0 same)))
      | inr other ↦ rw (
        get-store_id_pro b id subid row subrow (pair_key id subid) part subpart,
        other,
        eq_refl (pair_key id subid),
      )
    ]

    at_backward : get written rows_key ≡ some (pair_key id subid)
    at_backward =
        rw (get-store_id_pro b id subid row subrow rows_key part subpart, eq_refl rows_key)

    -- Storing a pair whose hashes have nine digits: every reader then finds the pair and its rows
    -- through each other, a second store returns the same rows and changes nothing, and no key but
    -- those two is touched.
    pub store_id_pro-IsReadable :
        (b' : Bucket) × (store_id_pro bolt md5_hex id subid b ≡ ok ((row, subrow), b'))
        × IsReadable b' id subid row subrow
        × ((j : Text) → j ≢ pair_key id subid → j ≢ rows_key → get b' j ≡ get b j)
    store_id_pro-IsReadable =
        let paired : IsPaired written id subid row subrow = record {
          forward = at_forward;
          backward = at_backward;
          row_bound = generate_row_id-two_63 md5_hex id row hashed;
          subrow_bound = generate_row_id-two_63 md5_hex subid subrow subhashed;
        } in
        (
          written,
          store_id_pro_new,
          paired-IsReadable written id subid row subrow part subpart paired,
          λ j not_key not_rows. untouched j not_key not_rows,
        )
      where
        untouched : (j : Text) → j ≢ pair_key id subid → j ≢ rows_key → get written j ≡ get b j
        untouched j not_key not_rows = rw (
          get-store_id_pro b id subid row subrow j part subpart,
          differ rows_key j (λ e. not_rows (sym e)),
          differ (pair_key id subid) j (λ e. not_key (sym e)),
        )

    -- No row is checked for being free: a pair whose rows are those of a stored pair takes them
    -- over. The first pair still leads to the rows, and the rows lead to the second pair.
    pub store_id_pro_takes_over :
        (id0 subid0 : Text)
        → is_part id0 ≡ true
        → is_part subid0 ≡ true
        → IsPaired b id0 subid0 row subrow
        → pair_key id0 subid0 ≢ rows_key
        → pair_key id0 subid0 ≢ pair_key id subid
        → (b' : Bucket) × (store_id_pro bolt md5_hex id subid b ≡ ok ((row, subrow), b'))
          × (retrieve_virtual_value_pro bolt id0 subid0 b' ≡ ok (format_int row, format_int subrow))
          × (retrieve_real_value_pro bolt row subrow b' ≡ ok (id, subid))
    unfolding retrieve_virtual_value_pro retrieve_real_value_pro
    store_id_pro_takes_over id0 subid0 part0 subpart0 held not_rows not_key =
        let kept : get written (pair_key id0 subid0) ≡ some rows_key =
          rw
            (
              get-store_id_pro b id subid row subrow (pair_key id0 subid0) part subpart,
              differ rows_key (pair_key id0 subid0) (λ e. not_rows (sym e)),
              differ (pair_key id subid) (pair_key id0 subid0) (λ e. not_key (sym e)),
            )
            held.forward in
        (
          written,
          store_id_pro_new,
          rw kept (
              two_parts-pair_key (format_int row) (format_int subrow) (format_int-no_colon row)
                (format_int-no_colon subrow)),
          rw at_backward (
              two_parts-pair_key id subid (is_part-no_colon id part)
                (is_part-no_colon subid subpart)),
        )
