-- ===== src/Webui/Routes.antt =====
-- The table of `CombinedMiddleware` of webui/api.go. gin's parameter `*filepath` begins with a slash,
-- which is stated where it matters.
use gensokyo_discord.Prelude.{
  ℕ, Bool, true, false, ◌&&◌, ◌||◌, Option, [], ◌∷◌, ◌++◌, ◌≡◌, ◌≢◌, Text, ◌==◌, codes, has_prefix,
  has_suffix, eqb, arith, if◌then◌else◌,
}
use gensokyo_discord.Strconv.{is_digit, decimal}
use gensokyo_discord.Strconv.RoundTrip.{decimal_cons, first_digit}
use gensokyo_discord.Config.{Settings, get_app_id, get_app_id_str}

pub data Endpoint : Type 0 where
  process_logs : (websocket : Bool) → Endpoint
  app_id process_status accounts read_config delete_config exit sys_info patch_config : Endpoint
  login check_login_status guild_list channel_list send_guild_channel_message invalid_api : Endpoint
  -- a file below dist
  file : Text → Endpoint
  -- left to the next handler
  not_handled : Endpoint

pub record Request : Type 0 where
  pub path : Text
  pub filepath : Text
  pub method : Text
  pub upgrade : Text
  pub name : Text

abbrev api_of : Text → Endpoint
api_of name =
    if name == codes "get_guild_list"
    then guild_list
    else if name == codes "get_channel_list"
    then channel_list
    else if name == codes "send_guild_channel_message"
    then send_guild_channel_message
    else invalid_api

-- the branches behind the one of the bot's number
unfoldable pub route_named : Text → Request → Endpoint
route_named bot r =
    if r.filepath == codes "/api/" ++ (bot ++ codes "/process/status")
    then process_status
    else if r.filepath == codes "/api/accounts"
    then accounts
    else if (r.filepath == codes "/api/" ++ (bot ++ codes "/config")) && (r.method == codes "GET")
    then read_config
    else if (r.filepath == codes "/api/" ++ (bot ++ codes "/config"))
        && (r.method == codes "DELETE")
    then delete_config
    else if (r.filepath == codes "/api/" ++ (bot ++ codes "/process"))
        && (r.method == codes "DELETE")
    then exit
    else if (r.filepath == codes "/api/status") && (r.method == codes "GET")
    then sys_info
    else if (r.filepath == codes "/api/" ++ (bot ++ codes "/config")) && (r.method == codes "PATCH")
    then patch_config
    else if (r.filepath == codes "/api/login") && (r.method == codes "POST")
    then login
    else if (r.filepath == codes "/api/check-login-status") && (r.method == codes "GET")
    then check_login_status
    else if (r.filepath == codes "/api/" ++ (bot ++ codes "/api")) && (r.method == codes "POST")
    then api_of r.name
    else not_handled

abbrev without_slash : Text → Text
without_slash [] = []
without_slash (c ∷ s) = if eqb c b'/' then s else c ∷ s

abbrev file_of : Text → Endpoint
file_of path =
    if (path == []) || (path == codes "/")
    then file (codes "index.html")
    else file (without_slash path)

unfoldable pub route : Option Settings → Request → Endpoint
unfolding route_named has_suffix
route s r =
    if has_prefix r.path (codes "/webui/api")
    then (if has_prefix r.filepath (codes "/api/") && has_suffix r.filepath (codes "/process/logs")
        then process_logs (r.upgrade == codes "websocket")
        else if r.filepath == codes "/api/logs"
        then process_logs (r.upgrade == codes "websocket")
        else if (r.filepath == get_app_id_str s) && (r.method == codes "PUT")
        then app_id
        else route_named (get_app_id_str s) r)
    else file_of r.filepath

-- The other endpoints.
IsOther : Endpoint → Type 0
IsOther e = e ≢ app_id

IsOther-named : (bot : Text) (r : Request) → IsOther (route_named bot r)
unfolding route_named IsOther
IsOther-named bot r h = ground arith

decimal-no_slash : (n : ℕ) (rest : Text) → (b'/' ∷ rest) == decimal n ≡ false
decimal-no_slash n rest =
    let (c, tail, e, digits) = decimal_cons n in
    let d : is_digit c ≡ true = first_digit c tail digits in rw e (ground arith)

-- A request whose `*filepath` begins with a slash, as gin's do, never reaches the handler that answers
-- with the number of the bot: that is compared with the number alone.
pub app_id_unreachable :
    (s : Option Settings) (r : Request) (rest : Text)
    → r.filepath ≡ b'/' ∷ rest
    → route s r ≢ app_id
unfolding route
app_id_unreachable s r rest slash = unreachable
  where
    apart : r.filepath == get_app_id_str s ≡ false
    apart = rw slash (decimal-no_slash (get_app_id s) rest)

    unreachable : route s r ≢ app_id
    unreachable h = ground (arith, apart, IsOther-named (get_app_id_str s) r)
