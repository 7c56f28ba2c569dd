-- ===== src/Server/Ws.antt =====
-- server/wsserver.go: who may connect to the WebSocket server, and the list of its clients.
use gensokyo_discord.Prelude.{
  ℕ, suc, ◌+◌, ◌-◌, true, ◌||◌, false, Option, List, [], ◌∷◌, ◌++◌, ◌≡◌, ◌↔◌, refl, ap, ◌∙◌, Text,
  ◌==◌, eq_iff, codes, has_prefix, drop, take, length, eqb, eqb_refl, arith, if◌then◌else◌,
}
use gensokyo_discord.Config.{Settings, get_ws_server_token}

-- The header Authorization, empty where it is not set, and the parameter access_token.
unfoldable pub given_token : Text → Text → Text
given_token header query =
    if header == []
    then query
    else if has_prefix header (codes "Token ")
    then drop 6 header
    else if has_prefix header (codes "Bearer ")
    then drop 7 header
    else header

pub data Access : Type 0 where
  admitted : Access
  missing_token : Access
  incorrect_token : Access

unfoldable pub authorize : Option Settings → Text → Text → Access
unfolding given_token
authorize s header query =
    let token = given_token header query in
    if get_ws_server_token s == []
    then admitted
    else if token == []
    then missing_token
    else if token == get_ws_server_token s
    then admitted
    else incorrect_token

-- The slice `WsServerClients`: a client is added at its end, and removed once.
unfoldable pub add_client : ℕ → List ℕ → List ℕ
add_client client clients = clients ++ (client ∷ [])

unfoldable pub remove_client : ℕ → List ℕ → List ℕ
remove_client client [] = []
remove_client client (c ∷ clients) =
    let rest = c ∷ remove_client client clients in if eqb c client then clients else rest

-- What stands in the array of the slice after a client has been removed: the clients behind it are moved
-- forward by one in place, and the last slot keeps its client. A loop that has begun before goes on in
-- this array, since nothing locks it.
unfoldable pub shifted : ℕ → List ℕ → List ℕ
shifted c [] = c ∷ []
shifted c (d ∷ rest) = d ∷ shifted d rest

unfoldable pub array_after : ℕ → List ℕ → List ℕ
unfolding shifted
array_after client [] = []
array_after client (c ∷ clients) =
    let rest = c ∷ array_after client clients in if eqb c client then shifted c clients else rest

-- The clients that the loop of a broadcast sends to, if a client is removed after `n` rounds.
unfoldable pub served_while : ℕ → ℕ → List ℕ → List ℕ
unfolding array_after
served_while client n clients = take n clients ++ drop n (array_after client clients)

-- A connection is admitted exactly where no token is configured, or the token of the header (behind
-- "Token ", behind "Bearer ", or as it stands), otherwise of the parameter, is the configured one.
pub authorize_iff :
    (s : Option Settings) (header query : Text)
    → (authorize s header query ≡ admitted) ↔ (
        ((get_ws_server_token s == []) || (given_token header query == get_ws_server_token s))
        ≡ true)
unfolding authorize
authorize_iff s header query = (forth, back)
  where
    forth :
        authorize s header query ≡ admitted
        → ((get_ws_server_token s == []) || (given_token header query == get_ws_server_token s))
          ≡ true
    forth h = ground (arith)

    back :
        ((get_ws_server_token s == []) || (given_token header query == get_ws_server_token s))
          ≡ true
        → authorize s header query ≡ admitted
    back h = ground (
      arith,
      eq_iff (given_token header query) [],
      eq_iff (get_ws_server_token s) [],
      eq_iff (given_token header query) (get_ws_server_token s),
    )

-- The clients that connect and the clients that leave, one after the other.
data Event : Type 0 where
  connects : ℕ → Event
  leaves : ℕ → Event

unfoldable run : List Event → List ℕ → List ℕ
unfolding add_client remove_client
run [] clients = clients
run (connects c ∷ events) clients = run events (add_client c clients)
run (leaves c ∷ events) clients = run events (remove_client c clients)

unfoldable pub counts : ℕ → List ℕ → ℕ
counts c [] = 0
counts c (k ∷ clients) = if eqb k c then suc (counts c clients) else counts c clients

counts-add :
    (c k : ℕ) (clients : List ℕ)
    → counts c (add_client k clients) ≡ counts c clients + (if eqb k c then 1 else 0)
unfolding counts add_client
counts-add c k [] = ground arith
counts-add c k (j ∷ clients) = ground (arith, counts-add c k clients)

counts-remove :
    (c k : ℕ) (clients : List ℕ)
    → counts c (remove_client k clients) ≡ counts c clients - (if eqb k c then 1 else 0)
unfolding counts remove_client
counts-remove c k [] = ground arith
counts-remove c k (j ∷ clients) = ground (arith, counts-remove c k clients)

-- How often a client is connected, by the events alone: one more when it connects, one less, if there is
-- one, when it leaves.
unfoldable connected : ℕ → List Event → ℕ → ℕ
connected c [] n = n
connected c (connects k ∷ events) n = connected c events (n + (if eqb k c then 1 else 0))
connected c (leaves k ∷ events) n = connected c events (n - (if eqb k c then 1 else 0))

-- After any clients have connected and left, one after the other, each stands in the list as often as it
-- is connected.
run-counts :
    (c : ℕ) (events : List Event) (clients : List ℕ)
    → counts c (run events clients) ≡ connected c events (counts c clients)
unfolding run connected
run-counts c [] clients = refl
run-counts c (connects k ∷ events) clients =
    run-counts c events (add_client k clients) ∙ ap (connected c events) (counts-add c k clients)
run-counts c (leaves k ∷ events) clients =
    run-counts c events (remove_client k clients)
    ∙ ap (connected c events) (counts-remove c k clients)

counts-append : (x : ℕ) (xs ys : List ℕ) → counts x (xs ++ ys) ≡ counts x xs + counts x ys
unfolding counts
counts-append x [] ys = omega arith
counts-append x (a ∷ xs) ys = ground (arith, counts-append x xs ys)

take-append : (xs ys : List ℕ) → take (length xs) (xs ++ ys) ≡ xs
take-append [] ys = refl
take-append (a ∷ xs) ys = rw (take-append xs ys) refl

drop-shifted :
    (c x : ℕ) (mid tail : List ℕ)
    → drop (suc (length mid)) (shifted c (mid ++ (x ∷ tail))) ≡ shifted x tail
unfolding shifted
drop-shifted c x [] tail = refl
drop-shifted c x (m ∷ mid) tail = drop-shifted m x mid tail

-- What is left of the array for a loop that has passed the client that is removed.
drop-array_after :
    (c x : ℕ) (front mid tail : List ℕ)
    → counts c front ≡ 0
    → drop (length (front ++ (c ∷ mid))) (array_after c ((front ++ (c ∷ mid)) ++ (x ∷ tail)))
      ≡ shifted x tail
unfolding array_after counts
drop-array_after c x [] mid tail apart = rw (eqb_refl c) (drop-shifted c x mid tail)
drop-array_after c x (f ∷ front) mid tail apart =
    let differs : eqb f c ≡ false = ground arith in
    rw (differs, array_after) (drop-array_after c x front mid tail (ground (arith, differs)))

counts-shifted : (x y : ℕ) (rest : List ℕ) → counts x (y ∷ rest) ≡ 0 → counts x (shifted y rest) ≡ 0
unfolding counts shifted
counts-shifted x y [] h = h
counts-shifted x y (z ∷ rest) h = ground (arith, counts-shifted x z rest)

-- A client that leaves while a broadcast is under way, after its own round, takes the next one's place:
-- the client that comes next in the loop, if it is not the last one, is sent nothing, although it is
-- connected once before and after.
pub leaving_skips :
    (c x y : ℕ) (front mid rest : List ℕ)
    → counts c front ≡ 0
    → counts x ((front ++ (c ∷ mid)) ++ (x ∷ (y ∷ rest))) ≡ 1
    → (counts x
          (served_while c (length (front ++ (c ∷ mid))) ((front ++ (c ∷ mid)) ++ (x ∷ (y ∷ rest))))
        ≡ 0)
      × (counts x (remove_client c ((front ++ (c ∷ mid)) ++ (x ∷ (y ∷ rest)))) ≡ 1)
unfolding served_while counts shifted
leaving_skips c x y front mid rest apart once =
    let passed = front ++ (c ∷ mid) in
    let all = counts-append x passed (x ∷ (y ∷ rest)) in
    let self = eqb_refl x in
    let in_passed : counts x passed ≡ 0 = ground (arith, all, self, once) in
    let in_rest : counts x (y ∷ rest) ≡ 0 = ground (arith, all, self, once) in
    let other : eqb c x ≡ false = ground (arith, counts-append x front (c ∷ mid), in_passed) in
    let left : counts x (y ∷ shifted y rest) ≡ 0 =
      ground (arith, counts-shifted x y rest, in_rest) in
    (
      rw (take-append passed (x ∷ (y ∷ rest)), drop-array_after c x front mid (y ∷ rest) apart)
          (omega (arith, counts-append x passed (y ∷ shifted y rest), in_passed, left)),
      counts-remove x c (passed ++ (x ∷ (y ∷ rest))) ∙ rw (other, once) refl,
    )
