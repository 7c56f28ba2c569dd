-- ===== src/Idmap/Pairs/Update.antt =====
-- `UpdateVirtualValuePro`: a pair moves to other rows.
use gensokyo_discord.Prelude.{
  ℕ, ◌<◌, true, none, some, ◌≡◌, ◌≢◌, refl, sym, ◌∙◌, Text, ◌==◌, eq_refl, ok, err, pair_missing,
  pair_taken, if◌then◌else◌, arith, length, ◌≤◌,
}
use mathlib.Core.Path.{subst}
use gensokyo_discord.Strconv.{format_int, two_63}
use gensokyo_discord.Strconv.RoundTrip.{length-format_int}
use gensokyo_discord.Bolt.{Bolt}
use gensokyo_discord.Bolt.Writes.{put_checked_accepted}
use gensokyo_discord.Idmap.Keys.{pair_key}
use gensokyo_discord.Idmap.Pairs.{update_virtual_value_pro}
use gensokyo_discord.Idmap.Pairs.RoundTrip.{
  IsPaired, IsReadable, is_part, is_part-short, accepts_pair, differ, paired-IsReadable,
}

module _ (bolt : Bolt) where
  open bolt use {Bucket, get, delete, get_delete}

  pub update_virtual_value_pro_missing :
      (old_row new_row old_sub new_sub : ℕ) (b : Bucket)
      → get b (pair_key (format_int old_row) (format_int old_sub)) ≡ none
      → update_virtual_value_pro bolt old_row new_row old_sub new_sub b ≡ err pair_missing
  unfolding update_virtual_value_pro
  update_virtual_value_pro_missing old_row new_row old_sub new_sub b missing =
      rw (missing, update_virtual_value_pro)

  pub update_virtual_value_pro_taken :
      (old_row new_row old_sub new_sub : ℕ) (b : Bucket) (value other : Text)
      → get b (pair_key (format_int old_row) (format_int old_sub)) ≡ some value
      → get b (pair_key (format_int new_row) (format_int new_sub)) ≡ some other
      → update_virtual_value_pro bolt old_row new_row old_sub new_sub b ≡ err pair_taken
  unfolding update_virtual_value_pro
  update_virtual_value_pro_taken old_row new_row old_sub new_sub b value other found taken =
      rw (found, update_virtual_value_pro, taken)

  module _ (id subid : Text) (old_row new_row old_sub new_sub : ℕ) (b : Bucket)
      (part : is_part id ≡ true) (subpart : is_part subid ≡ true) (row_bound : new_row < two_63)
      (sub_bound : new_sub < two_63) (held : IsPaired bolt b id subid old_row old_sub)
      (free : get b (pair_key (format_int new_row) (format_int new_sub)) ≡ none) where
    abbrev old_key : Text
    old_key = pair_key (format_int old_row) (format_int old_sub)

    abbrev new_key : Text
    new_key = pair_key (format_int new_row) (format_int new_sub)

    abbrev key : Text
    key = pair_key id subid

    -- The new rows are no key that is in use.
    holds_ne : (k j : Text) {v : Text} → j ≡ new_key → get b k ≡ some v → k ≢ j
    holds_ne k j {v} at_new found same =
        let clash : none ≡ some v =
          sym free ∙ subst (λ t. get b t ≡ some v) (same ∙ at_new) found in
        cc

    get-update_virtual_value_pro :
        (b' : Bucket) × (update_virtual_value_pro bolt old_row new_row old_sub new_sub b ≡ ok b')
        × ((j : Text)
            → get b' j ≡ (
                if key == j
                then some new_key
                else if new_key == j
                then some key
                else if key == j
                then none
                else if old_key == j
                then none
                else get b j))
    unfolding update_virtual_value_pro
    get-update_virtual_value_pro =
        let low : length (format_int new_row) ≤ 16000 = omega (arith, length-format_int new_row) in
        let low_sub : length (format_int new_sub) ≤ 16000 =
          omega (arith, length-format_int new_sub) in
        let short = is_part-short id part in
        let subshort = is_part-short subid subpart in
        let b1 = delete b old_key in
        let b2 = delete b1 key in
        let (b3, e3, get3) = put_checked_accepted bolt b2 new_key key (
          accepts_pair (format_int new_row) (format_int new_sub) id subid low low_sub short
            subshort) in
        let (b4, e4, get4) = put_checked_accepted bolt b3 key new_key (
          accepts_pair id subid (format_int new_row) (format_int new_sub) short subshort low
            low_sub) in
        (
          b4,
          rw (held.backward, update_virtual_value_pro, free, e3) e4,
          λ j. rw (get4 j, get3 j, get_delete b1 key j, get_delete b old_key j),
        )

    -- A stored pair moves to any rows that are free: the readers find the pair under the new rows
    -- and the new rows under the pair, and every key but the pair, the old rows and the new rows is
    -- untouched. If the pair is not spelled like its old rows, these lead nowhere any more.
    pub update_virtual_value_pro_lem :
        (b' : Bucket) × (update_virtual_value_pro bolt old_row new_row old_sub new_sub b ≡ ok b')
        × IsReadable bolt b' id subid new_row new_sub
        × (old_key ≢ key → get b' old_key ≡ none)
        × ((j : Text) → j ≢ key → j ≢ old_key → j ≢ new_key → get b' j ≡ get b j)
    update_virtual_value_pro_lem =
        let (b', done, at) = get-update_virtual_value_pro in
        (
          b',
          done,
          paired-IsReadable bolt b' id subid new_row new_sub part subpart (paired b' at),
          gone b' at,
          untouched b' at,
        )
      where
        At : Bucket → Type 0
        At b' =
            (j : Text)
            → get b' j ≡ (
                if key == j
                then some new_key
                else if new_key == j
                then some key
                else if key == j
                then none
                else if old_key == j
                then none
                else get b j)

        paired : (b' : Bucket) → At b' → IsPaired bolt b' id subid new_row new_sub
        paired b' at = record {
          forward = rw (at key, eq_refl key);
          backward = rw (
            at new_key,
            differ key new_key (holds_ne key new_key refl held.forward),
            eq_refl new_key,
          );
          row_bound = row_bound;
          subrow_bound = sub_bound;
        }

        gone : (b' : Bucket) → At b' → old_key ≢ key → get b' old_key ≡ none
        gone b' at other = rw (
          at old_key,
          differ key old_key (λ e. other (sym e)),
          differ new_key old_key (λ e. holds_ne old_key new_key refl held.backward (sym e)),
          eq_refl old_key,
        )

        untouched :
            (b' : Bucket)
            → At b'
            → (j : Text) → j ≢ key
            → j ≢ old_key
            → j ≢ new_key
            → get b' j ≡ get b j
        untouched b' at j a o n = rw (
          at j,
          differ key j (λ e. a (sym e)),
          differ new_key j (λ e. n (sym e)),
          differ old_key j (λ e. o (sym e)),
        )
