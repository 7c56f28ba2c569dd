-- ===== src/Wsclient/Steps.antt =====
-- The interleavings of the goroutines of wsclient/ws.go. The order of the goroutines inside `Reconnect`
-- is kept only up to where each of them stands.
use gensokyo_discord.Prelude.{ℕ, suc, ◌<◌, true, List, [], ◌∷◌, ◌++◌, ◌≡◌, Text, eqb, if◌then◌else◌}
use gensokyo_discord.Wsclient.{
  Net, Task, starting, dialing, adopting, ending, write_message, stop_reading, claim, dialled,
  adopt, finish, put, resend,
}

unfoldable pub close : ℕ → Net → Net
close c w = record w { closed = λ k. if eqb k c then true else w.closed k }

-- How many messages the channel of a client holds.
unfoldable pub waiting : ℕ → List (ℕ × Text) → ℕ
waiting i [] = 0
waiting i ((k, m) ∷ channels) = let rest = waiting i channels in if eqb k i then suc rest else rest

pub data Step : Net → Net → Type 0 where
  -- a report, an answer or a heartbeat
  sends : (w : Net) (i : ℕ) (m : Text) → i < w.count → Step w (write_message i m w).1
  -- the other side, or the network
  closes : (w : Net) (c : ℕ) → Step w (close c w)
  stops :
      (w : Net) (i : ℕ)
      → i < w.count
      → (w.clients i).reads ≡ true
      → w.closed (w.clients i).conn ≡ true
      → Step w (stop_reading i w)
  claims :
      (w : Net) (i : ℕ) (before after : List Task)
      → w.tasks ≡ before ++ (starting i ∷ after)
      → Step w (claim i (before ++ after) w)
  dials :
      (w : Net) (hello : Text) (i : ℕ) (before after : List Task)
      → w.tasks ≡ before ++ (dialing i ∷ after)
      → Step w (dialled hello i (before ++ after) w)
  gives_up :
      (w : Net) (i : ℕ) (before after : List Task)
      → w.tasks ≡ before ++ (dialing i ∷ after)
      → Step w (record w { tasks = ending i ∷ (before ++ after) })
  adopts :
      (w : Net) (i j : ℕ) (before after : List Task)
      → w.tasks ≡ before ++ (adopting i j ∷ after)
      → Step w (adopt i j (before ++ after) w)
  finishes :
      (w : Net) (i : ℕ) (before after : List Task)
      → w.tasks ≡ before ++ (ending i ∷ after)
      → Step w (finish i (before ++ after) w)
  -- A channel has room for 100 messages.
  puts :
      (w : Net) (i : ℕ) (m : Text) (before after : List (ℕ × Text))
      → w.pending ≡ before ++ ((i, m) ∷ after)
      → waiting i w.channels < 100
      → Step w (put i m (before ++ after) w)
  -- The first message of the channel is taken, and sent at once.
  resends :
      (w : Net) (i j : ℕ) (m : Text) (before after : List ℕ) (front back : List (ℕ × Text))
      → (w.clients i).resent_by ≡ before ++ (j ∷ after)
      → w.channels ≡ front ++ ((i, m) ∷ back)
      → waiting i front ≡ 0
      → Step w (resend j m (front ++ back) w)

pub data Reach (w : Net) : Net → Type 0 where
  here : Reach w w
  next : {v u : Net} → Reach w v → Step v u → Reach w u

pub Reach-trans : {u v w : Net} → Reach u v → Reach v w → Reach u w
Reach-trans r here = r
Reach-trans r (next s st) = next (Reach-trans r s) st
