-- ===== src/Tests/Wsclient.antt =====
-- One reconnection of a client, step by step, and what comes after it.
use gensokyo_discord.Prelude.{
  Bool, ◌==◌, ◌+◌, ◌≤◌, true, false, not, ◌&&◌, Option, some, [], ◌∷◌, ◌++◌, ◌≡◌, refl, Text, codes,
  eqb, every, select, arith, if◌then◌else◌,
}
use mathlib.Core.List.{map}
use gensokyo_discord.Config.{Settings, get_post_url}
use gensokyo_discord.Tests.Sample.{plain_settings}
use gensokyo_discord.Wsclient.{
  Client, Net, update, write_message, stop_reading, claim, new_client, dialled, adopt, finish,
}
use gensokyo_discord.Wsclient.Steps.{closes, stops, claims, Reach, here, next, close}
use gensokyo_discord.Wsclient.Exclusion.{
  IsExclusive, in_progress, one_if, AllBelow, reconnects_once,
}
use gensokyo_discord.Wsclient.Settled.{IsSettled, Spares}
use gensokyo_discord.Wsclient.Dial.{dial, attempts, first_success, dial_ends}
use gensokyo_discord.Processor.Broadcast.{
  Broadcast, broadcast_message_to_all, broadcast_reaches, broadcast_never_posts, is_live, is_dead,
  line_of, handed, post_of,
}

wsclient_run : Unit {0}
unfolding close stop_reading claim dialled adopt finish in_progress AllBelow new_client update
    write_message Spares
wsclient_run = tt

abbrev on_first : Client
on_first = record { conn = 0; is_reconnecting = false; reads = true; resent_by = [] }

abbrev start : Net
start = record {
  clients = λ k. on_first;
  count = 1;
  conns = 1;
  closed = λ c. false;
  tasks = [];
  delivered = [];
  pending = [];
  channels = [];
}

abbrev hello : Text
hello = codes "hello"

abbrev dropped : Net
dropped = close 0 start

abbrev stopped : Net
stopped = stop_reading 0 dropped

abbrev claimed : Net
claimed = claim 0 [] stopped

abbrev renewed : Net
renewed = dialled hello 0 [] claimed

abbrev adopted : Net
adopted = adopt 0 1 [] renewed

abbrev finished : Net
finished = finish 0 [] adopted

abbrev dropped_again : Net
dropped_again = close 1 finished

start-IsExclusive : IsExclusive start
unfolding wsclient_run
start-IsExclusive = record { single = λ i. refl; known = tt; unborn = λ i h. refl }

until_claimed : Reach start claimed
unfolding wsclient_run
until_claimed =
    next (next (next here (closes start 0)) (stops dropped 0 (omega arith) refl refl))
      (claims stopped 0 [] [] refl)

reconnects_once_example :
    (in_progress 0 claimed.tasks ≤ 1)
    × (in_progress 0 claimed.tasks ≡ one_if ((claimed.clients 0).is_reconnecting))
reconnects_once_example = reconnects_once start-IsExclusive until_claimed 0

settled : IsSettled 0 1 dropped_again
unfolding wsclient_run
settled = record { exists = omega arith; on = refl; dead = refl; deaf = refl; spared = tt }

abbrev asked : Text → Bool
asked url = true

abbrev failing : Broadcast
failing =
    broadcast_message_to_all (some plain_settings) (λ c. true) asked ([] ++ (0 ∷ [])) []
      (some hello) dropped_again

broadcast_never_posts_example : (failing.failed ≡ true) × (failing.posted ≡ [])
broadcast_never_posts_example =
    broadcast_never_posts (some plain_settings) (λ c. true) asked [] [] [] (some hello)
      {w = dropped_again} {v = dropped_again} 0 1 settled here

abbrev posting : Option Settings
posting = some (record plain_settings { post_url = codes "http://a" ∷ [] })

abbrev posted_once : Broadcast
posted_once =
    broadcast_message_to_all posting (λ c. eqb c 4) asked (0 ∷ []) (4 ∷ []) (some hello) start

broadcast_reaches_example :
    (posted_once.net.delivered
      ≡ start.delivered ++ map (line_of start hello) (select (is_live start) (0 ∷ [])))
    × (posted_once.net.pending ≡ handed hello (select (is_dead start) (0 ∷ [])) start.pending)
    × (posted_once.served ≡ select (λ c. eqb c 4) (4 ∷ []))
    × (posted_once.failed ≡ not (every (is_live start) (0 ∷ []) && every (λ c. eqb c 4) (4 ∷ [])))
    × (posted_once.posted ≡ (
        if every (is_live start) (0 ∷ [])
          && every (λ c. eqb c 4) (4 ∷ [])
          && not (every (λ url. url == []) (get_post_url posting))
        then map (post_of hello) (select asked (get_post_url posting))
        else []))
broadcast_reaches_example =
    broadcast_reaches posting (λ c. eqb c 4) asked (0 ∷ []) (4 ∷ []) hello start

-- A message fails, and waits in a channel.
abbrev failed_once : Net
failed_once = (write_message 0 hello dropped).1

dial_ends_example :
    dial (λ k. eqb k 2) 5 (5 + 1) 0
    ≡ some (first_success (select (λ k. eqb k 2) (attempts (5 + 1) 0)))
dial_ends_example = dial_ends (λ k. eqb k 2) 5
