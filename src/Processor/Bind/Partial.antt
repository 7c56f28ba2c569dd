-- ===== src/Processor/Bind/Partial.antt =====
-- The second form of the bind command is not one step: it can stop between its two updates.
use mathlib.Core.Path.{subst}
use gensokyo_discord.Prelude.{
  ok-injective, contains_byte, Bool-cases, arith, ℕ, true, false, Option, none, [], ◌∷◌, ◌++◌, ◌≡◌,
  refl, sym, ap, ◌∙◌, Text, ok, err, pair_missing, fields, eq_iff, ◌==◌, inl, inr,
}
use gensokyo_discord.Strconv.{parse_int, format_int}
use gensokyo_discord.Strconv.RoundTrip.{format_int-no_colon}
use gensokyo_discord.Config.{Settings, get_lotus_value}
use gensokyo_discord.Http.{Fetch}
use gensokyo_discord.Bolt.{Bolt}
use gensokyo_discord.Idmap.Keys.{row_key, pair_key, is_plain}
use gensokyo_discord.Idmap.Ids.{update_virtual_value}
use gensokyo_discord.Idmap.Ids.Consistent.{IsConsistent}
use gensokyo_discord.Idmap.Ids.Store.{IsStored, IsFree}
use gensokyo_discord.Idmap.Ids.Update.{update_virtual_value_lem}
use gensokyo_discord.Idmap.Remote.{update_virtual_value_v2, update_virtual_value_v2_pro}
use gensokyo_discord.Processor.Bind.{
  Bot, failed, part, bind_rows, bind_group, perform_bind_operation_v2,
}
use gensokyo_discord.Idmap.Ids.Update.{get-update_virtual_value}
use gensokyo_discord.Idmap.Pairs.Update.{update_virtual_value_pro_missing}

without_byte-ne :
    (c : ℕ) (s t : Text) → contains_byte c s ≡ false → contains_byte c t ≡ true → s == t ≡ false
without_byte-ne c s t out within = elim (Bool-cases (s == t)) [
  | inl same ↦
      (let equal = ap (contains_byte c) ((eq_iff s t).0 same) in
        let clash : false ≡ true = sym out ∙ equal ∙ within in cc)
  | inr differ ↦ differ
]

pair_key_has_colon : (id subid : Text) → contains_byte b':' (pair_key id subid) ≡ true
pair_key_has_colon [] subid = refl
pair_key_has_colon (c ∷ id) subid = ground (arith, pair_key_has_colon id subid)

row_key_no_colon : (row : ℕ) → contains_byte b':' (row_key row) ≡ false
row_key_no_colon row = format_int-no_colon row

plain_no_colon : (id : Text) → is_plain id ≡ true → contains_byte b':' id ≡ false
unfolding is_plain
plain_no_colon id plain = ground arith

module _ (bolt : Bolt) where
  open bolt use {Bucket, get}

  -- After a move of a single identifier, a pair that had no entry has none.
  pub pair_still_missing :
      (id : Text) (old_row new_row : ℕ) (b b' : Bucket) (group user : Text)
      → is_plain id ≡ true
      → IsStored bolt b id old_row
      → IsFree bolt b new_row
      → update_virtual_value bolt old_row new_row b ≡ ok b'
      → get b (pair_key group user) ≡ none
      → get b' (pair_key group user) ≡ none
  pair_still_missing id old_row new_row b b' group user plain held free done missing =
      let (b'', done', at) = get-update_virtual_value bolt id old_row new_row b plain held free in
      let same : b'' ≡ b' = ok-injective (sym done' ∙ done) in
      let colon = pair_key_has_colon group user in
      subst (λ t. get t (pair_key group user) ≡ none) same
        (at (pair_key group user)
          ∙ rw
              (
                without_byte-ne b':' (row_key new_row) (pair_key group user)
                    (row_key_no_colon new_row) colon,
                without_byte-ne b':' (row_key old_row) (pair_key group user)
                    (row_key_no_colon old_row) colon,
                without_byte-ne b':' id (pair_key group user) (plain_no_colon id plain) colon,
              )
              missing)

  -- With three fields, a stored plain identifier, a free row and no entry for the pair of the group and
  -- the old row, the command reports the missing pair and returns an error, but the identifier has
  -- already moved.
  pub perform_bind_operation_v2_moves_and_fails :
      (s : Option Settings) (fetch : Fetch) (message group verb old new : Text)
      (old_row new_row group_row : ℕ) (id : Text) (bot : Bot bolt)
      → get_lotus_value s ≡ false
      → fields message ≡ verb ∷ old ∷ new ∷ []
      → parse_int old ≡ ok old_row
      → parse_int new ≡ ok new_row
      → parse_int group ≡ ok group_row
      → is_plain id ≡ true
      → IsStored bolt bot.rows id old_row
      → IsFree bolt bot.rows new_row
      → IsConsistent bolt bot.rows
      → get bot.rows (pair_key (format_int group_row) (format_int old_row)) ≡ none
      → (b' : Bucket) × (perform_bind_operation_v2 bolt s fetch message group bot ≡ (
        err pair_missing,
        record bot { rows = b'; notices = bot.notices ++ (failed pair_missing ∷ []) },
      ))
        × IsStored bolt b' id new_row
        × (get b' (row_key old_row) ≡ none)
  unfolding perform_bind_operation_v2 bind_rows bind_group part update_virtual_value_v2
      update_virtual_value_v2_pro
  perform_bind_operation_v2_moves_and_fails s fetch message group verb old new old_row new_row
        group_row id bot local_db words old_ok new_ok group_ok plain held free ok_b missing =
      let (b', done, moved, gone, ok_b', others) =
        update_virtual_value_lem bolt id old_row new_row bot.rows plain held free ok_b in
      let still =
        pair_still_missing id old_row new_row bot.rows b' (format_int group_row)
          (format_int old_row) plain held free done missing in
      let refused =
        update_virtual_value_pro_missing bolt group_row group_row old_row new_row b' still in
      (b', rw (words, old_ok, new_ok, group_ok, local_db, done, refused) refl, moved, gone)
