-- ===== src/Wsclient.antt =====
-- wsclient/ws.go: the connections on which the program reports to OneBot applications, as the goroutines
-- see them. A client is a number, a connection is a number, and an address that is dialled is a test of
-- the attempt. What `recvMessage` does with an action is Callapi's.
pub mod Dial
pub mod Steps
pub mod Exclusion
pub mod Settled
pub mod Conserved
use gensokyo_discord.Prelude.{
  ℕ, ◌+◌, Bool, true, false, Option, none, some, List, [], ◌∷◌, ◌++◌, Text, eqb, if◌then◌else◌,
}

-- `WebSocketClient`: `reads` says whether its goroutine `handleIncomingMessages` runs, and `resent_by`
-- are the clients whose `processFailedMessages` takes from its channel.
pub record Client : Type 0 where
  pub conn : ℕ
  pub is_reconnecting : Bool
  pub reads : Bool
  pub resent_by : List ℕ

-- The goroutines inside `Reconnect`: before the first lock, dialling, before the second lock with the new
-- client, and before the deferred function.
pub data Task : Type 0 where
  starting : ℕ → Task
  dialing : ℕ → Task
  adopting : ℕ → ℕ → Task
  ending : ℕ → Task

-- The clients below `count` exist; a connection is live until it is closed. `pending` are the goroutines
-- that wait to put a failed message into the channel of a client, and `channels` are the channels of all
-- clients in one list: the channel `sendFailures` of a client holds its entries, in this order.
pub record Net : Type 0 where
  pub clients : ℕ → Client
  pub count : ℕ
  pub conns : ℕ
  pub closed : ℕ → Bool
  pub tasks : List Task
  pub delivered : List (ℕ × Text)
  pub pending : List (ℕ × Text)
  pub channels : List (ℕ × Text)

unfoldable pub update : ℕ → Client → (ℕ → Client) → ℕ → Client
update i c clients k = if eqb k i then c else clients k

-- `SendMessage` from the write on: a failed message is handed to a goroutine of its own. The result says
-- whether there was no error.
unfoldable pub write_message : ℕ → Text → Net → Bool × Net
write_message i m w =
    if w.closed (w.clients i).conn
    then (false, record w { pending = (i, m) ∷ w.pending })
    else (true, record w { delivered = w.delivered ++ (((w.clients i).conn, m) ∷ []) })

-- The message as json.Marshal encodes it, if it can.
unfoldable pub send_message : ℕ → Option Text → Net → Bool × Net
unfolding write_message
send_message i none w = (false, w)
send_message i (some m) w = write_message i m w

-- The goroutine that puts a failed message into the channel of the client; `rest` are the others.
unfoldable pub put : ℕ → Text → List (ℕ × Text) → Net → Net
put i m rest w = record w { pending = rest; channels = w.channels ++ ((i, m) ∷ []) }

-- The end of the loop of `handleIncomingMessages`, after a read that failed.
unfoldable pub stop_reading : ℕ → Net → Net
unfolding update
stop_reading i w =
    let c = w.clients i in
    let w' : Net = record w { clients = update i (record c { reads = false }) w.clients } in
    if c.is_reconnecting then w' else record w' { tasks = starting i ∷ w.tasks }

-- `Reconnect` under the first lock; `rest` are the other goroutines.
unfoldable pub claim : ℕ → List Task → Net → Net
unfolding update
claim i rest w =
    let c = w.clients i in
    if c.is_reconnecting then record w { tasks = rest } else record w {
      clients = update i (record c { is_reconnecting = true }) w.clients;
      tasks = dialing i ∷ rest;
    }

abbrev pub fresh : ℕ → Client
fresh conn = record { conn = conn; is_reconnecting = false; reads = true; resent_by = [] }

-- `NewWebSocketClient` once the address has answered: the client, its first message, its goroutines.
unfoldable pub new_client : Text → Net → Net
unfolding update write_message
new_client hello w =
    let w' : Net = record w {
      clients = update w.count (fresh w.conns) w.clients;
      count = w.count + 1;
      conns = w.conns + 1;
    } in
    (write_message w.count hello w').1

unfoldable pub dialled : Text → ℕ → List Task → Net → Net
unfolding new_client
dialled hello i rest w = record (new_client hello w) { tasks = adopting i w.count ∷ rest }

-- The second lock, and the goroutine that resends.
unfoldable pub adopt : ℕ → ℕ → List Task → Net → Net
unfolding update
adopt i j rest w =
    let c = w.clients i in
    record w {
      clients =
          update i (record c { conn = (w.clients j).conn; resent_by = j ∷ c.resent_by }) w.clients;
      tasks = ending i ∷ rest;
    }

-- The deferred function.
unfoldable pub finish : ℕ → List Task → Net → Net
unfolding update
finish i rest w = record w {
  clients = update i (record (w.clients i) { is_reconnecting = false }) w.clients;
  tasks = rest;
}

-- One round of `processFailedMessages` of the client `j`, once it has taken the message; `rest` are the
-- channels without it.
unfoldable pub resend : ℕ → Text → List (ℕ × Text) → Net → Net
unfolding write_message
resend j m rest w = (write_message j m (record w { channels = rest })).1
