-- ===== src/Processor/Broadcast.antt =====
-- `BroadcastMessageToAll`, `SendMessageToAllClients`, `allEmpty` and `PostMessageToUrls` of
-- Processor/Processor.go, on the clients of Wsclient. `json` is the message as json.Marshal encodes it, if
-- it can; `serves` says which of the connections of the WebSocket server take a message, and `requests`
-- from which URLs http.NewRequest makes a request. A request that is made is listed with its URL, whatever
-- is answered. The three are parameters: JSON, the sockets and HTTP are libraries.
use gensokyo_discord.Prelude.{
  ℕ, suc, ◌+◌, ◌<◌, Bool, true, false, not, ◌&&◌, Option, none, some, List, [], ◌∷◌, ◌++◌,
  append_assoc, append-nil, ◌≡◌, refl, sym, ap, Text, ◌==◌, eqb, ltb, every, select, length,
  Bool-cases, inl, inr, arith, if◌then◌else◌,
}
use mathlib.Core.List.{map}
use gensokyo_discord.Config.{Settings, get_post_url}
use gensokyo_discord.Wsclient.{Net, write_message, send_message}
use gensokyo_discord.Wsclient.Steps.{Reach}
use gensokyo_discord.Wsclient.Settled.{
  IsSettled, send-IsSettled, Reach-IsSettled, settled_client_fails,
}

-- The loop over `Wsclient`: the number of errors.
unfoldable pub send_to_clients : List ℕ → Option Text → Net → ℕ × Net
unfolding send_message
send_to_clients [] json net = (0, net)
send_to_clients (client ∷ clients) json net =
    let sent = send_message client json net in
    let rest = send_to_clients clients json sent.1 in
    ((if sent.0 then rest.0 else suc rest.0), rest.1)

-- `WebSocketServerClient.SendMessage`
abbrev pub server_send : (ℕ → Bool) → Option Text → ℕ → Bool
server_send serves none client = false
server_send serves (some message) client = serves client

-- `SendMessageToAllClients`, and the loop over `WsServerClients`: the number of errors, and the clients
-- that the message was written to.
unfoldable pub send_message_to_all_clients : (ℕ → Bool) → Option Text → List ℕ → ℕ × List ℕ
send_message_to_all_clients serves json [] = (0, [])
send_message_to_all_clients serves json (client ∷ clients) =
    let rest = send_message_to_all_clients serves json clients in
    if server_send serves json client then (rest.0, client ∷ rest.1) else (suc rest.0, rest.1)

unfoldable pub all_empty : List Text → Bool
all_empty [] = true
all_empty (a ∷ addresses) = if not (a == []) then false else all_empty addresses

-- the loop over the URLs
unfoldable pub post_each : (Text → Bool) → Text → List Text → List (Text × Text)
post_each requests message [] = []
post_each requests message (url ∷ urls) =
    let rest = post_each requests message urls in
    if requests url then (url, message) ∷ rest else rest

unfoldable pub post_message_to_urls :
    Option Settings → (Text → Bool) → Option Text → List (Text × Text)
unfolding post_each
post_message_to_urls s requests none = []
post_message_to_urls s requests (some message) = post_each requests message (get_post_url s)

pub record Broadcast : Type 0 where
  pub failed : Bool
  pub net : Net
  pub served : List ℕ
  pub posted : List (Text × Text)

unfoldable pub broadcast_message_to_all :
    Option Settings
    → (serves : ℕ → Bool) → (requests : Text → Bool) → (clients servers : List ℕ) → Option Text
    → Net
    → Broadcast
unfolding send_to_clients send_message_to_all_clients all_empty post_message_to_urls
broadcast_message_to_all s serves requests clients servers json net =
    let (errors, net') = send_to_clients clients json net in
    let (server_errors, served) = send_message_to_all_clients serves json servers in
    if ltb 0 (errors + server_errors)
    then record { failed = true; net = net'; served = served; posted = [] }
    else record {
      failed = false;
      net = net';
      served = served;
      posted = if all_empty (get_post_url s) then [] else post_message_to_urls s requests json;
    }

-- A client of `Wsclient` on a connection that is not closed, and one on a closed one.
abbrev pub is_live : Net → ℕ → Bool
is_live net i = not (net.closed (net.clients i).conn)

abbrev pub is_dead : Net → ℕ → Bool
is_dead net i = net.closed (net.clients i).conn

-- What a live client is given, and the goroutines that are started for the other ones.
abbrev pub line_of : Net → Text → ℕ → ℕ × Text
line_of net message i = ((net.clients i).conn, message)

abbrev pub handed : Text → List ℕ → List (ℕ × Text) → List (ℕ × Text)
handed message [] pending = pending
handed message (i ∷ clients) pending = handed message clients ((i, message) ∷ pending)

send_to_clients_lem :
    (message : Text) (clients : List ℕ) (net : Net)
    → send_to_clients clients (some message) net ≡ (
      length (select (is_dead net) clients),
      record net {
        delivered = net.delivered ++ map (line_of net message) (select (is_live net) clients);
        pending = handed message (select (is_dead net) clients) net.pending;
      },
    )
unfolding send_to_clients send_message write_message
send_to_clients_lem message [] net =
    ap (λ (d : List (ℕ × Text)). (0, record net { delivered = d })) (sym (append-nil net.delivered))
send_to_clients_lem message (i ∷ clients) net =
    elim (Bool-cases (net.closed (net.clients i).conn)) [
      | inl dead ↦
          rw
            (
              dead,
              send_to_clients,
              send_message,
              write_message,
              send_to_clients_lem message clients
                  (record net { pending = (i, message) ∷ net.pending }),
            )
            refl
      | inr live ↦
          rw
            (
              live,
              send_to_clients,
              send_message,
              write_message,
              send_to_clients_lem message clients (record net {
                delivered = net.delivered ++ (((net.clients i).conn, message) ∷ []);
              }),
              append_assoc net.delivered (((net.clients i).conn, message) ∷ [])
                  (map (line_of net message) (select (is_live net) clients)),
            )
            refl
    ]

none_dead :
    (net : Net) (clients : List ℕ)
    → every (is_live net) clients ≡ eqb (length (select (is_dead net) clients)) 0
none_dead net [] = refl
none_dead net (i ∷ clients) = ground (arith, none_dead net clients)

served_lem :
    (serves : ℕ → Bool) (message : Text) (servers : List ℕ)
    → send_message_to_all_clients serves (some message) servers
      ≡ (length (select (λ c. not (serves c)) servers), select serves servers)
unfolding send_message_to_all_clients
served_lem serves message [] = refl
served_lem serves message (c ∷ servers) = elim (Bool-cases (serves c)) [
  | inl yes_it ↦ rw (yes_it, served_lem serves message servers) refl
  | inr not_it ↦ rw (not_it, served_lem serves message servers) refl
]

none_refused :
    (serves : ℕ → Bool) (servers : List ℕ)
    → every serves servers ≡ eqb (length (select (λ c. not (serves c)) servers)) 0
none_refused serves [] = refl
none_refused serves (c ∷ servers) = ground (arith, none_refused serves servers)

all_empty_lem : (urls : List Text) → all_empty urls ≡ every (λ url. url == []) urls
unfolding all_empty
all_empty_lem [] = refl
all_empty_lem (url ∷ urls) = ground (arith, all_empty_lem urls)

abbrev pub post_of : Text → Text → Text × Text
post_of message url = (url, message)

post_each_lem :
    (requests : Text → Bool) (message : Text) (urls : List Text)
    → post_each requests message urls ≡ map (post_of message) (select requests urls)
unfolding post_each
post_each_lem requests message [] = refl
post_each_lem requests message (url ∷ urls) = elim (Bool-cases (requests url)) [
  | inl yes_it ↦ rw (yes_it, post_each_lem requests message urls) refl
  | inr not_it ↦ rw (not_it, post_each_lem requests message urls) refl
]

-- A message that can be encoded is written to each client of `Wsclient` on a live connection and to each
-- connection of the server that takes it, whatever the others answer, and for each client on a closed
-- connection a goroutine is left with it. The broadcast fails exactly where one of them did not take it.
-- It is posted only if it does not fail, and then once to each configured URL that a request can be made
-- from, in their order, unless all of these are empty.
pub broadcast_reaches :
    (s : Option Settings) (serves : ℕ → Bool) (requests : Text → Bool) (clients servers : List ℕ)
    (message : Text) (net : Net)
    → let b = broadcast_message_to_all s serves requests clients servers (some message) net in
      let urls = get_post_url s in
      (b.net.delivered ≡ net.delivered ++ map (line_of net message) (select (is_live net) clients))
      × (b.net.pending ≡ handed message (select (is_dead net) clients) net.pending)
      × (b.served ≡ select serves servers)
      × (b.failed ≡ not (every (is_live net) clients && every serves servers))
      × (b.posted ≡ (
          if every (is_live net) clients
            && every serves servers
            && not (every (λ url. url == []) urls)
          then map (post_of message) (select requests urls)
          else []))
unfolding broadcast_message_to_all post_message_to_urls
broadcast_reaches s serves requests clients servers message net =
    let dead = length (select (is_dead net) clients) in
    let refused = length (select (λ c. not (serves c)) servers) in
    let quiet = none_dead net clients in
    let taken = none_refused serves servers in
    rw
      (
        broadcast_message_to_all,
        send_to_clients_lem message clients net,
        served_lem serves message servers,
        all_empty_lem (get_post_url s),
        post_each_lem requests message (get_post_url s),
      )
      (elim (Bool-cases (ltb 0 (dead + refused))) [
        | inl some_failed ↦
            rw some_failed
              (refl, refl, refl, ground (arith, quiet, taken), ground (arith, quiet, taken))
        | inr none_failed ↦
            rw none_failed
              (refl, refl, refl, ground (arith, quiet, taken), ground (arith, quiet, taken))
      ])

settled-errors :
    (i conn : ℕ) (before after : List ℕ) (json : Option Text) (net : Net)
    → IsSettled i conn net
    → 0 < (send_to_clients (before ++ (i ∷ after)) json net).0
unfolding send_to_clients send_message
settled-errors i conn [] after json net s =
    let fails = settled_client_fails i conn s Reach.here json in ground (arith, fails)
settled-errors i conn (c ∷ before) after none net s =
    ground (arith, settled-errors i conn before after none net s)
settled-errors i conn (c ∷ before) after (some message) net s = ground (
  arith,
  settled-errors i conn before after (some message) (write_message c message net).1
      (send-IsSettled i conn c message net s),
)

-- A client of `Wsclient` that has been reconnected once, and whose connection is closed then, ends the
-- posts: in every state that is reached from there, each broadcast fails, and posts to no URL.
pub broadcast_never_posts :
    (s : Option Settings) (serves : ℕ → Bool) (requests : Text → Bool)
    (servers before after : List ℕ) (json : Option Text) {w v : Net} (i conn : ℕ)
    → IsSettled i conn w
    → Reach w v
    → let b = broadcast_message_to_all s serves requests (before ++ (i ∷ after)) servers json v in
      (b.failed ≡ true) × (b.posted ≡ [])
unfolding broadcast_message_to_all
broadcast_never_posts s serves requests servers before after json {w} {v} i conn settled r =
    let errors = settled-errors i conn before after json v (Reach-IsSettled i conn settled r) in
    let some_failed : ltb 0 (
          (send_to_clients (before ++ (i ∷ after)) json v).0
          + (send_message_to_all_clients serves json servers).0)
        ≡ true =
      ground arith in
    rw (some_failed, broadcast_message_to_all) (refl, refl)
