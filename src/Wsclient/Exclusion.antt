-- ===== src/Wsclient/Exclusion.antt =====
-- `Reconnect` under the mutex: of the goroutines that enter it for one client, one works at a time.
use gensokyo_discord.Prelude.{
  ℕ, ◌+◌, ◌≤◌, ◌<◌, Bool, true, false, List, [], ◌∷◌, ◌++◌, ◌≡◌, refl, sym, ◌∙◌, Text, eqb, inl,
  inr, Bool-cases, arith,
}
use gensokyo_discord.Wsclient.{
  Net, Task, starting, dialing, adopting, ending, update, write_message, stop_reading, claim,
  new_client, dialled, adopt, finish, put, resend,
}
use gensokyo_discord.Wsclient.Steps.{
  Step, sends, closes, stops, claims, dials, gives_up, adopts, finishes, puts, resends, Reach, here,
  next, close,
}

abbrev pub one_if : Bool → ℕ
one_if true = 1
one_if false = 0

-- A goroutine that has passed the first lock for the client `i`.
unfoldable pub works : ℕ → Task → ℕ
works i (starting k) = 0
works i (dialing k) = one_if (eqb k i)
works i (adopting k j) = one_if (eqb k i)
works i (ending k) = one_if (eqb k i)

unfoldable pub in_progress : ℕ → List Task → ℕ
unfolding works
in_progress i [] = 0
in_progress i (t ∷ tasks) = works i t + in_progress i tasks

abbrev owner : Task → ℕ
owner (starting k) = k
owner (dialing k) = k
owner (adopting k j) = k
owner (ending k) = k

unfoldable pub AllBelow : ℕ → List Task → Type 0
AllBelow n [] = Unit
AllBelow n (t ∷ tasks) = (owner t < n) × AllBelow n tasks

pub record IsExclusive (w : Net) : Type 0 where
  pub single : (i : ℕ) → in_progress i w.tasks ≡ one_if ((w.clients i).is_reconnecting)
  pub known : AllBelow w.count w.tasks
  pub unborn : (i : ℕ) → w.count ≤ i → (w.clients i).is_reconnecting ≡ false

in_progress-middle :
    (i : ℕ) (before after : List Task) (t : Task)
    → in_progress i (before ++ (t ∷ after)) ≡ works i t + in_progress i (before ++ after)
unfolding in_progress
in_progress-middle i [] after t = refl
in_progress-middle i (s ∷ before) after t = omega (arith, in_progress-middle i before after t)

AllBelow-middle :
    (n : ℕ) (before after : List Task) (t : Task)
    → AllBelow n (before ++ (t ∷ after))
    → (owner t < n) × AllBelow n (before ++ after)
unfolding AllBelow
AllBelow-middle n [] after t h = h
AllBelow-middle n (s ∷ before) after t (h, k) =
    ((AllBelow-middle n before after t k).0, (h, (AllBelow-middle n before after t k).1))

AllBelow-more : (n : ℕ) (tasks : List Task) → AllBelow n tasks → AllBelow (n + 1) tasks
unfolding AllBelow
AllBelow-more n [] h = tt
AllBelow-more n (t ∷ tasks) (h, k) = (omega arith, AllBelow-more n tasks k)

-- Sending changes no flag, no goroutine and no number of clients.
abbrev flag : Net → ℕ → Bool
flag w i = (w.clients i).is_reconnecting

send-flag : (k i : ℕ) (m : Text) (w : Net) → flag (write_message k m w).1 i ≡ flag w i
unfolding write_message update
send-flag k i m w = ground arith

send-tasks : (k : ℕ) (m : Text) (w : Net) → (write_message k m w).1.tasks ≡ w.tasks
unfolding write_message
send-tasks k m w = ground arith

send-count : (k : ℕ) (m : Text) (w : Net) → (write_message k m w).1.count ≡ w.count
unfolding write_message
send-count k m w = ground arith

-- Another state with the same flags, goroutines and clients.
same-IsExclusive :
    (w v : Net)
    → IsExclusive w
    → ((i : ℕ) → flag v i ≡ flag w i)
    → v.tasks ≡ w.tasks
    → v.count ≡ w.count
    → IsExclusive v
same-IsExclusive w v e flags tasks count = record {
  single = λ i. rw (flags i, tasks) (e.single i);
  known = rw (tasks, count) e.known;
  unborn = λ i h. flags i ∙ e.unborn i (omega arith);
}

stop-flag : (k i : ℕ) (w : Net) → flag (stop_reading k w) i ≡ flag w i
unfolding stop_reading update
stop-flag k i w = ground arith

send-IsExclusive :
    (k : ℕ) (m : Text) (w : Net) → IsExclusive w → IsExclusive (write_message k m w).1
send-IsExclusive k m w e =
    same-IsExclusive w (write_message k m w).1 e (λ i. send-flag k i m w) (send-tasks k m w)
      (send-count k m w)

stop-IsExclusive : (k : ℕ) (w : Net) → k < w.count → IsExclusive w → IsExclusive (stop_reading k w)
unfolding stop_reading update in_progress AllBelow
stop-IsExclusive k w below e = record {
  single = λ i. ground (arith, e.single i);
  known = elim (Bool-cases (w.clients k).is_reconnecting) [
    | inl busy ↦ rw (busy, stop_reading) e.known
    | inr idle ↦ rw (idle, stop_reading) (below, e.known)
  ];
  unborn = λ i h. stop-flag k i w ∙ e.unborn i (ground arith);
}

-- A goroutine that steps on keeps its place; `t` becomes `t'` of the same client.
step-on :
    (w v : Net) (before after : List Task) (t t' : Task)
    → w.tasks ≡ before ++ (t ∷ after)
    → v.tasks ≡ t' ∷ (before ++ after)
    → owner t' ≡ owner t
    → ((i : ℕ) → works i t' ≡ works i t)
    → w.count ≤ v.count
    → v.count ≤ w.count + 1
    → ((i : ℕ) → flag v i ≡ flag w i)
    → IsExclusive w
    → IsExclusive v
unfolding in_progress AllBelow
step-on w v before after t t' was is same_owner same_work grows once flags e =
    let apart = AllBelow-middle w.count before after t (rw (← was) e.known) in
    record {
      single = λ i.
          rw (flags i, is)
            (let busy : in_progress i w.tasks ≡ works i t + in_progress i (before ++ after) =
                rw was (in_progress-middle i before after t) in
              omega (arith, e.single i, busy, same_work i));
      known = rw is (omega (arith, apart.0), wider v.count (before ++ after) apart.1);
      unborn = λ i h. flags i ∙ e.unborn i (omega arith);
    }
  where
    wider : (n : ℕ) (tasks : List Task) → AllBelow w.count tasks → AllBelow v.count tasks
    wider n [] h = tt
    wider n (s ∷ tasks) (h, k) = (omega arith, wider n tasks k)

claim-IsExclusive :
    (i : ℕ) (before after : List Task) (w : Net)
    → w.tasks ≡ before ++ (starting i ∷ after)
    → IsExclusive w
    → IsExclusive (claim i (before ++ after) w)
unfolding claim update in_progress AllBelow
claim-IsExclusive i before after w was e =
    let apart = AllBelow-middle w.count before after (starting i) (rw (← was) e.known) in
    let busy : (k : ℕ) → in_progress k w.tasks ≡ in_progress k (before ++ after) =
      λ k. rw was (omega (arith, in_progress-middle k before after (starting i))) in
    elim (Bool-cases (w.clients i).is_reconnecting) [
      | inl taken ↦
          rw (taken, claim)
            (record { single = λ k. sym (busy k) ∙ e.single k; known = apart.1; unborn = e.unborn })
      | inr free ↦
          rw (free, claim)
            (record {
              single = λ k. ground (arith, busy k, e.single k);
              known = apart;
              unborn = λ k h. ground (arith, e.unborn k, apart.0);
            })
    ]

finish-IsExclusive :
    (i : ℕ) (before after : List Task) (w : Net)
    → w.tasks ≡ before ++ (ending i ∷ after)
    → IsExclusive w
    → IsExclusive (finish i (before ++ after) w)
unfolding finish update in_progress AllBelow
finish-IsExclusive i before after w was e =
    let apart = AllBelow-middle w.count before after (ending i) (rw (← was) e.known) in
    let busy : (k : ℕ)
        → in_progress k w.tasks ≡ works k (ending i) + in_progress k (before ++ after) =
      λ k. rw was (in_progress-middle k before after (ending i)) in
    record {
      single = λ k. ground (arith, busy k, e.single k);
      known = apart.1;
      unborn = λ k h. ground (arith, e.unborn k, apart.0);
    }

new-flag :
    (hello : Text) (w : Net) (i : ℕ)
    → flag w w.count ≡ false
    → flag (new_client hello w) i ≡ flag w i
unfolding new_client write_message update
new-flag hello w i unborn = ground arith

new-count : (hello : Text) (w : Net) → (new_client hello w).count ≡ w.count + 1
unfolding new_client write_message
new-count hello w = ground arith

adopt-flag : (i j k : ℕ) (rest : List Task) (w : Net) → flag (adopt i j rest w) k ≡ flag w k
unfolding adopt update
adopt-flag i j k rest w = ground arith

Step-IsExclusive : {w v : Net} → Step w v → IsExclusive w → IsExclusive v
unfolding close dialled adopt put resend update works
Step-IsExclusive (sends w i m h) e = send-IsExclusive i m w e
Step-IsExclusive (closes w c) e = same-IsExclusive w _ e (λ i. refl) refl refl
Step-IsExclusive (stops w i h reads dead) e = stop-IsExclusive i w h e
Step-IsExclusive (claims w i before after was) e = claim-IsExclusive i before after w was e
Step-IsExclusive (dials w hello i before after was) e =
    let more = new-count hello w in
    step-on w _ before after (dialing i) (adopting i w.count) was refl refl (λ k. refl)
      (omega arith) (omega arith) (λ k. new-flag hello w k (e.unborn w.count (omega arith))) e
Step-IsExclusive (gives_up w i before after was) e =
    step-on w _ before after (dialing i) (ending i) was refl refl (λ k. refl) (omega arith)
      (omega arith) (λ k. refl) e
Step-IsExclusive (adopts w i j before after was) e =
    step-on w _ before after (adopting i j) (ending i) was refl refl (λ k. refl) (omega arith)
      (omega arith) (λ k. adopt-flag i j k (before ++ after) w) e
Step-IsExclusive (finishes w i before after was) e = finish-IsExclusive i before after w was e
Step-IsExclusive (puts w i m before after by room) e = same-IsExclusive w _ e (λ k. refl) refl refl
Step-IsExclusive (resends w i j m before after front back by held first) e =
    let w' : Net = record w { channels = front ++ back } in
    send-IsExclusive j m w' (same-IsExclusive w w' e (λ k. refl) refl refl)

pub Reach-IsExclusive : {w v : Net} → IsExclusive w → Reach w v → IsExclusive v
Reach-IsExclusive e here = e
Reach-IsExclusive e (next r st) = Step-IsExclusive st (Reach-IsExclusive e r)

one_if-le : (b : Bool) → one_if b ≤ 1
one_if-le true = omega arith
one_if-le false = omega arith

-- In every state that the goroutines can reach from one where no more than a goroutine of each client
-- reconnects, marked by its flag, at most one goroutine of each client has passed the first lock of
-- `Reconnect` and has not ended, and one has exactly where `isReconnecting` is set.
pub reconnects_once :
    {w v : Net}
    → IsExclusive w
    → Reach w v
    → (i : ℕ)
    → (in_progress i v.tasks ≤ 1) × (in_progress i v.tasks ≡ one_if ((v.clients i).is_reconnecting))
reconnects_once e r i =
    let single = (Reach-IsExclusive e r).single i in (omega (arith, single, one_if-le _), single)
