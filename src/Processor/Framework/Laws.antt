-- ===== src/Processor/Framework/Laws.antt =====
-- Who can change rows with a message.
use mathlib.Core.Path.{subst}
use gensokyo_discord.Prelude.{
  ok_pair, ℕ, Bool, true, false, not, ◌&&◌, Option, none, some, List, [], ◌∷◌, ◌++◌, ◌≡◌, refl, ap,
  Text, ◌==◌, codes, has_prefix, Outcome, ok, err, panicked, Error, fields, inl, inr, Bool-cases,
  Outcome-cases, eq_iff, if◌then◌else◌, arith, ◌>>=◌,
}
use gensokyo_discord.Config.{
  Settings, get_master_id, get_idmap_pro, get_bind_prefix, get_me_prefix, get_unlock_prefix,
}
use gensokyo_discord.Http.{Fetch}
use gensokyo_discord.Bolt.{Bolt}
use gensokyo_discord.Idmap.Remote
use gensokyo_discord.Processor.Commands.{
  contains, handle_no_permission, is_valid_temporary_command, generate_temporary_command,
}
use gensokyo_discord.Processor.Bind.{Bot}
use gensokyo_discord.Processor.Framework.{
  Message, found, lookups, has_permission, show_me, use_command, handle_bind, handle_rest,
  handle_framework_command,
}

-- A one-time command is never the text t.
never_t : (random : Option ℕ) → generate_temporary_command random == codes "t" ≡ false
unfolding generate_temporary_command
never_t none = refl
never_t (some byte) = ground arith

-- Adding a command that is not the one looked for does not make that one valid.
added_other :
    (cmd other : Text) (commands : List Text)
    → other == cmd ≡ false
    → (is_valid_temporary_command cmd commands).0 ≡ false
    → (is_valid_temporary_command cmd (commands ++ (other ∷ []))).0 ≡ false
unfolding is_valid_temporary_command
added_other cmd other [] differ absent = rw differ refl
added_other cmd other (c ∷ commands) differ absent = elim (Bool-cases (c == cmd)) [
  | inl same ↦ rw same (rw same at absent)
  | inr apart ↦ rw apart (added_other cmd other commands differ (rw apart at absent))
]

-- What holds of the second value of a lookup, and of the empty text, holds of what is found.
found_second :
    (P : Text → Type 0) (r : Outcome (Text × Text)) (values : Text × Text) (e : Option Error)
    → ((first second : Text) → r ≡ ok (first, second) → P second)
    → P []
    → found r ≡ ok (values, e)
    → P values.1
found_second P (ok (first, second)) values e holds empty is =
    subst (λ v. P (v.1)) (ok_pair is).0 (holds first second refl)
found_second P (err why) values e holds empty is = subst (λ v. P (v.1)) (ok_pair is).0 empty
found_second P panicked values e holds empty is = cc

abbrev Found : Type 0
Found = Outcome ((Text × Text) × Option Error)

abbrev both : Bool → Found → Found → Outcome ((Text × Text) × (Text × Text) × Option Error)
both pro r g = r >>= λ u. if pro then (g >>= λ p. ok (u.0, p.0, p.1)) else ok (u.0, ([], []), u.1)

-- The first pair of the lookups is what the first of them found.
first_found :
    (pro : Bool) (r g : Found) (user pair : Text × Text) (e : Option Error)
    → both pro r g ≡ ok (user, pair, e)
    → (e' : Option Error) × (r ≡ ok (user, e'))
first_found true (ok (u, e')) (ok (p, e'')) user pair e is = (e', ap (λ v. ok (v, e')) (cc))
first_found true (ok (u, e')) (err why) user pair e is = cc
first_found true (ok (u, e')) panicked user pair e is = cc
first_found false (ok (u, e')) g user pair e is = (e', ap (λ v. ok (v, e')) (cc))
first_found pro (err why) g user pair e is = cc
first_found pro panicked g user pair e is = cc

module _ (bolt : Bolt) (s : Option Settings) (fetch : Fetch) (random : Option ℕ)
    (discord : Bool × Bool) where
  show_me_kept :
      (m : Message) (now new : Text) (pair : Text × Text) (e : Option Error) (bot : Bot bolt)
      → (show_me bolt s fetch random discord m now new pair e bot).1.rows ≡ bot.rows
  unfolding show_me
  show_me_kept m now new pair none bot = refl
  show_me_kept m now new pair (some e) bot = refl

  handle_bind_kept :
      (m : Message) (new group : Text) (bot : Bot bolt)
      → has_permission bolt s fetch random discord m.real_user new ≡ false
      → (use_command bolt s fetch random discord (fields m.cleaned) bot.commands).0 ≡ false
      → (handle_bind bolt s fetch random discord m new group bot).1.rows ≡ bot.rows
  unfolding handle_bind
  handle_bind_kept m new group bot barred spent =
      elim (Bool-cases (has_prefix m.cleaned (get_bind_prefix s))) [
        | inl asks ↦ rw (spent, barred, asks) refl
        | inr other ↦ rw (spent, barred, other) refl
      ]

  -- Nobody is let in by the lookups when neither value is listed.
  has_permission_refused :
      (master : Text) (masters : List Text) (real virtual : Text)
      → get_master_id s ≡ master ∷ masters
      → contains (master ∷ masters) real ≡ false
      → contains (master ∷ masters) virtual ≡ false
      → has_permission bolt s fetch random discord real virtual ≡ false
  unfolding has_permission
  has_permission_refused master masters real virtual listed not_real not_virtual =
      rw (listed, not_real, not_virtual) (ground arith)

  -- The command that a message t makes leaves the message without a valid command.
  t_still_refused :
      (m : Message) (commands : List Text)
      → m.cleaned == codes "t" ≡ true
      → (use_command bolt s fetch random discord (fields m.cleaned) commands).0 ≡ false
      → (use_command bolt s fetch random discord
          (fields m.cleaned)
          (handle_no_permission random commands).1).0
        ≡ false
  unfolding use_command handle_no_permission fields
  t_still_refused m commands is_t spent =
      let text = (eq_iff m.cleaned (codes "t")).0 is_t in
      let spent' = rw text at spent in
      rw text (
        added_other (codes "t") (generate_temporary_command random) commands (never_t random)
          spent')

  module _ (m : Message) (master : Text) (masters : List Text)
      (listed : get_master_id s ≡ master ∷ masters)
      (not_real : contains (master ∷ masters) m.real_user ≡ false)
      (not_empty : contains (master ∷ masters) [] ≡ false) where
    after_lookups :
        (bot : Bot bolt)
        → ((real virtual : Text)
            → Remote.retrieve_virtual_value_v2 bolt s fetch m.real_user bot.rows
              ≡ ok (real, virtual)
            → contains (master ∷ masters) virtual ≡ false)
        → (use_command bolt s fetch random discord (fields m.cleaned) bot.commands).0 ≡ false
        → ((user pair : Text × Text) (e : Option Error)
            → lookups bolt s fetch random discord m bot ≡ ok (user, pair, e)
            → has_permission bolt s fetch random discord m.real_user user.1 ≡ false)
    unfolding lookups
    after_lookups bot not_virtual spent user pair e found_all =
        let first =
          first_found (get_idmap_pro s)
            (found (Remote.retrieve_virtual_value_v2 bolt s fetch m.real_user bot.rows))
            (found
              (Remote.retrieve_virtual_value_v2_pro bolt s fetch m.real_group m.real_user bot.rows))
            user pair e found_all in
        has_permission_refused master masters m.real_user user.1 listed not_real (
          found_second (λ v. contains (master ∷ masters) v ≡ false)
            (Remote.retrieve_virtual_value_v2 bolt s fetch m.real_user bot.rows) user first.0
            not_virtual not_empty first.1)

    rest_kept :
        (bot : Bot bolt)
        → ((real virtual : Text)
            → Remote.retrieve_virtual_value_v2 bolt s fetch m.real_user bot.rows
              ≡ ok (real, virtual)
            → contains (master ∷ masters) virtual ≡ false)
        → (use_command bolt s fetch random discord (fields m.cleaned) bot.commands).0 ≡ false
        → (handle_rest bolt s fetch random discord m bot).1.rows ≡ bot.rows
    unfolding handle_rest
    rest_kept bot not_virtual spent =
        elim (Outcome-cases (lookups bolt s fetch random discord m bot)) [
          | inl ((user, pair, e), is) ↦
              (let barred = after_lookups bot not_virtual spent user pair e is in
                let bind_kept = handle_bind_kept m user.1 pair.0 bot barred spent in
                rw (is, handle_rest)
                  (elim (Bool-cases (
                    m.is_guild
                    && has_prefix m.cleaned (get_unlock_prefix s)
                    && not (discord.0 && discord.1))) [
                      | inl unlock ↦ rw unlock refl
                      | inr locked ↦
                          rw locked (elim (Bool-cases (has_prefix m.cleaned (get_me_prefix s))) [
                            | inl me ↦ rw me (show_me_kept m user.0 user.1 pair e bot)
                            | inr other ↦ rw other bind_kept
                          ])
                    ]))
          | inr (inl (e, is)) ↦ rw (is, handle_rest) refl
          | inr (inr is) ↦ rw (is, handle_rest) refl
        ]

    -- Where the list of masters is not empty, a message whose author is in it neither by the real nor
    -- by the virtual value, and whose first word is no valid one-time command, changes no row, whatever
    -- it says. (The empty text must not be listed: it is the virtual value of an unknown author.)
    pub handle_framework_command_barred :
        (bot : Bot bolt)
        → ((real virtual : Text)
            → Remote.retrieve_virtual_value_v2 bolt s fetch m.real_user bot.rows
              ≡ ok (real, virtual)
            → contains (master ∷ masters) virtual ≡ false)
        → (use_command bolt s fetch random discord (fields m.cleaned) bot.commands).0 ≡ false
        → (handle_framework_command bolt s fetch random discord m bot).1.rows ≡ bot.rows
    unfolding handle_framework_command
    handle_framework_command_barred bot not_virtual spent =
        elim (Bool-cases (m.cleaned == codes "t")) [
          | inl is_t ↦ rw is_t (
              rest_kept (record bot { commands = (handle_no_permission random bot.commands).1 })
                not_virtual (t_still_refused m bot.commands is_t spent))
          | inr other ↦ rw other (rest_kept bot not_virtual spent)
        ]
