-- ===== src/Wsclient/Conserved.antt =====
-- No message that is sent over wsclient is lost or doubled.
use gensokyo_discord.Prelude.{ℕ, suc, ◌+◌, List, [], ◌∷◌, Text, ◌==◌, if◌then◌else◌}
use gensokyo_discord.Wsclient.{Net}
use gensokyo_discord.Wsclient.Steps.{
  Step, sends, closes, stops, claims, dials, gives_up, adopts, finishes, puts, resends, Reach, here,
  next,
}

-- How often a message stands in a list.
unfoldable pub copies_in : Text → List (ℕ × Text) → ℕ
copies_in m [] = 0
copies_in m ((k, t) ∷ rest) = if t == m then suc (copies_in m rest) else copies_in m rest

-- The copies of a message: delivered, in the hands of a goroutine, or in a channel.
unfoldable pub copies : Text → Net → ℕ
unfolding copies_in
copies m w = copies_in m w.delivered + copies_in m w.pending + copies_in m w.channels

-- How often a message is sent by reports, answers and heartbeats, and as the first one of a new client.
unfoldable pub sent_by : {w v : Net} → Text → Step w v → ℕ
sent_by t (sends w i m h) = if m == t then 1 else 0
sent_by t (closes w c) = 0
sent_by t (stops w i h reads dead) = 0
sent_by t (claims w i before after was) = 0
sent_by t (dials w hello i before after was) = if hello == t then 1 else 0
sent_by t (gives_up w i before after was) = 0
sent_by t (adopts w i j before after was) = 0
sent_by t (finishes w i before after was) = 0
sent_by t (puts w i m before after by room) = 0
sent_by t (resends w i j m before after front back by held first) = 0

unfoldable pub sent : {w v : Net} → Text → Reach w v → ℕ
unfolding sent_by
sent t here = 0
sent t (next r st) = sent t r + sent_by t st
