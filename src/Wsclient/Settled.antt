-- ===== src/Wsclient/Settled.antt =====
-- What becomes of a client after its first reconnection: the goroutine that reads the new connection
-- belongs to the new client, so nobody notices for the old one that the connection is closed.
use gensokyo_discord.Prelude.{
  ℕ, ◌+◌, ◌<◌, true, false, Option, none, some, List, [], ◌∷◌, ◌++◌, ◌≡◌, refl, sym, ap, ◌∙◌, Text,
  eqb, eqb_iff, inl, inr, Bool-cases, arith,
}
use gensokyo_discord.Wsclient.{
  Client, Net, Task, starting, dialing, adopting, ending, update, write_message, send_message,
  stop_reading, claim, new_client, dialled, adopt, finish, put, resend, fresh,
}
use gensokyo_discord.Wsclient.Steps.{
  Step, sends, closes, stops, claims, dials, gives_up, adopts, finishes, puts, resends, Reach, here,
  next, close,
}

-- No goroutine in `Reconnect` is one for the client `i`.
unfoldable pub Spares : ℕ → List Task → Type 0
Spares i [] = Unit
Spares i (starting k ∷ tasks) = (eqb k i ≡ false) × Spares i tasks
Spares i (dialing k ∷ tasks) = (eqb k i ≡ false) × Spares i tasks
Spares i (adopting k j ∷ tasks) = (eqb k i ≡ false) × Spares i tasks
Spares i (ending k ∷ tasks) = (eqb k i ≡ false) × Spares i tasks

-- The client exists, on a connection that is closed; it does not read any more, and is not reconnected.
pub record IsSettled (i : ℕ) (conn : ℕ) (w : Net) : Type 0 where
  pub exists : i < w.count
  pub on : (w.clients i).conn ≡ conn
  pub dead : w.closed conn ≡ true
  pub deaf : (w.clients i).reads ≡ false
  pub spared : Spares i w.tasks

OwnerApart : Task → ℕ → Type 0
OwnerApart (starting k) i = eqb k i ≡ false
OwnerApart (dialing k) i = eqb k i ≡ false
OwnerApart (adopting k j) i = eqb k i ≡ false
OwnerApart (ending k) i = eqb k i ≡ false

Spares-middle :
    (i : ℕ) (before after : List Task) (t : Task)
    → Spares i (before ++ (t ∷ after))
    → OwnerApart t i × Spares i (before ++ after)
unfolding Spares OwnerApart
Spares-middle i [] after (starting k) h = h
Spares-middle i [] after (dialing k) h = h
Spares-middle i [] after (adopting k j) h = h
Spares-middle i [] after (ending k) h = h
Spares-middle i (starting k ∷ before) after t (h, r) =
    ((Spares-middle i before after t r).0, (h, (Spares-middle i before after t r).1))
Spares-middle i (dialing k ∷ before) after t (h, r) =
    ((Spares-middle i before after t r).0, (h, (Spares-middle i before after t r).1))
Spares-middle i (adopting k j ∷ before) after t (h, r) =
    ((Spares-middle i before after t r).0, (h, (Spares-middle i before after t r).1))
Spares-middle i (ending k ∷ before) after t (h, r) =
    ((Spares-middle i before after t r).0, (h, (Spares-middle i before after t r).1))

module _ (i conn : ℕ) where
  pub send-IsSettled :
      (k : ℕ) (m : Text) (w : Net) → IsSettled i conn w → IsSettled i conn (write_message k m w).1
  unfolding write_message update
  send-IsSettled k m w s = record {
    exists = ground (arith, s.exists);
    on = ground (arith, s.on);
    dead = ground (arith, s.dead);
    deaf = ground (arith, s.deaf);
    spared = elim (Bool-cases (w.closed (w.clients k).conn)) [
      | inl closed ↦ rw (closed, write_message) s.spared
      | inr open_still ↦ rw (open_still, write_message) s.spared
    ];
  }

  stop-IsSettled :
      (k : ℕ) (w : Net)
      → (w.clients k).reads ≡ true
      → IsSettled i conn w
      → IsSettled i conn (stop_reading k w)
  unfolding stop_reading update Spares
  stop-IsSettled k w reads s =
      let apart : eqb k i ≡ false = elim (Bool-cases (eqb k i)) [
        | inl same ↦
            (let e : k ≡ i = (eqb_iff k i).0 same in
              let clash : true ≡ false =
                sym reads ∙ ap (λ (n : ℕ). (w.clients n).reads) e ∙ s.deaf in
              cc)
        | inr differ ↦ differ
      ] in
      record {
        exists = ground (arith, s.exists);
        on = ground (arith, s.on);
        dead = ground (arith, s.dead);
        deaf = ground (arith, s.deaf);
        spared = elim (Bool-cases (w.clients k).is_reconnecting) [
          | inl busy ↦ rw (busy, stop_reading) s.spared
          | inr idle ↦ rw (idle, stop_reading) (apart, s.spared)
        ];
      }

  -- A change of another client.
  apart-IsSettled :
      (k : ℕ) (c : Client) (tasks : List Task) (w : Net)
      → eqb k i ≡ false
      → Spares i tasks
      → IsSettled i conn w
      → IsSettled i conn (record w { clients = update k c w.clients; tasks = tasks })
  unfolding update
  apart-IsSettled k c tasks w apart spared s = record {
    exists = s.exists;
    on = ground (arith, s.on);
    dead = s.dead;
    deaf = ground (arith, s.deaf);
    spared = spared;
  }

  new-IsSettled :
      (hello : Text) (w : Net) → IsSettled i conn w → IsSettled i conn (new_client hello w)
  unfolding new_client update
  new-IsSettled hello w s =
      let w' : Net = record w {
        clients = update w.count (fresh w.conns) w.clients;
        count = w.count + 1;
        conns = w.conns + 1;
      } in
      send-IsSettled w.count hello w' (record {
        exists = omega (arith, s.exists);
        on = ground (arith, s.on, s.exists);
        dead = s.dead;
        deaf = ground (arith, s.deaf, s.exists);
        spared = s.spared;
      })

  tasks-IsSettled :
      (tasks : List Task) (w : Net)
      → Spares i tasks
      → IsSettled i conn w
      → IsSettled i conn (record w { tasks = tasks })
  tasks-IsSettled tasks w spared s = record {
    exists = s.exists;
    on = s.on;
    dead = s.dead;
    deaf = s.deaf;
    spared = spared;
  }

  Step-IsSettled : {w v : Net} → Step w v → IsSettled i conn w → IsSettled i conn v
  unfolding close claim dialled adopt finish put resend Spares OwnerApart
  Step-IsSettled (sends w k m h) s = send-IsSettled k m w s
  Step-IsSettled (closes w c) s = record {
    exists = s.exists;
    on = s.on;
    dead = ground (arith, s.dead);
    deaf = s.deaf;
    spared = s.spared;
  }
  Step-IsSettled (stops w k h reads dead) s = stop-IsSettled k w reads s
  Step-IsSettled (claims w k before after was) s =
      let (apart, spared) = Spares-middle i before after (starting k) (rw (← was) s.spared) in
      elim (Bool-cases (w.clients k).is_reconnecting) [
        | inl taken ↦ rw (taken, claim) (tasks-IsSettled (before ++ after) w spared s)
        | inr free ↦
            rw (free, claim)
              (apart-IsSettled k (record (w.clients k) { is_reconnecting = true })
                (dialing k ∷ (before ++ after)) w apart (apart, spared) s)
      ]
  Step-IsSettled (dials w hello k before after was) s =
      let (apart, spared) = Spares-middle i before after (dialing k) (rw (← was) s.spared) in
      tasks-IsSettled (adopting k w.count ∷ (before ++ after)) (new_client hello w) (apart, spared)
        (new-IsSettled hello w s)
  Step-IsSettled (gives_up w k before after was) s =
      tasks-IsSettled (ending k ∷ (before ++ after)) w
        (Spares-middle i before after (dialing k) (rw (← was) s.spared)) s
  Step-IsSettled (adopts w k j before after was) s =
      let (apart, spared) = Spares-middle i before after (adopting k j) (rw (← was) s.spared) in
      apart-IsSettled k
        (record (w.clients k) {
          conn = (w.clients j).conn;
          resent_by = j ∷ (w.clients k).resent_by;
        })
        (ending k ∷ (before ++ after)) w apart (apart, spared) s
  Step-IsSettled (finishes w k before after was) s =
      let (apart, spared) = Spares-middle i before after (ending k) (rw (← was) s.spared) in
      apart-IsSettled k (record (w.clients k) { is_reconnecting = false }) (before ++ after) w apart
        spared s
  Step-IsSettled (puts w k m before after by room) s = record {
    exists = s.exists;
    on = s.on;
    dead = s.dead;
    deaf = s.deaf;
    spared = s.spared;
  }
  Step-IsSettled (resends w k j m before after front back by held first) s =
      send-IsSettled j m (record w { channels = front ++ back })
        (record { exists = s.exists; on = s.on; dead = s.dead; deaf = s.deaf; spared = s.spared })

  pub Reach-IsSettled : {w v : Net} → IsSettled i conn w → Reach w v → IsSettled i conn v
  Reach-IsSettled s here = s
  Reach-IsSettled s (next r st) = Step-IsSettled st (Reach-IsSettled s r)

-- A client that has been reconnected once (it exists, its own reader has ended, and no goroutine of
-- `Reconnect` is one for it) and whose connection is closed then stays on that connection in every state
-- that the goroutines can reach: each `SendMessage` to it fails.
pub settled_client_fails :
    {w v : Net} (i conn : ℕ)
    → IsSettled i conn w
    → Reach w v
    → (json : Option Text) → (send_message i json v).0 ≡ false
unfolding send_message write_message
settled_client_fails i conn s r none = refl
settled_client_fails {w} {v} i conn s r (some m) =
    let e = Reach-IsSettled i conn s r in
    let closed : v.closed (v.clients i).conn ≡ true = rw e.on e.dead in rw closed refl
