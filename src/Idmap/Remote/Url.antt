-- ===== src/Idmap/Remote/Url.antt =====
-- The URLs of the requests that idmap/service.go sends.
use gensokyo_discord.Prelude.{Option, List, ◌∷◌, ◌++◌, Text, ◌==◌, codes, if◌then◌else◌}
use gensokyo_discord.Config.{Settings, get_server_dir, get_port_value}
use gensokyo_discord.Http.{query_text}

-- `protocol://serverDir:port` and the path
unfoldable pub server_url : Option Settings → Text → Text
server_url s path =
    (if get_port_value s == codes "443" then codes "https" else codes "http")
    ++ (codes "://" ++ (get_server_dir s ++ (b':' ∷ (get_port_value s ++ path))))

-- The values stand in the query as they are.
unfoldable pub query_url : Option Settings → Text → List (Text × Text) → Text
unfolding server_url query_text
query_url s path params = server_url s path ++ (b'?' ∷ query_text params)

unfoldable pub getid_url : Option Settings → List (Text × Text) → Text
unfolding query_url
getid_url s params = query_url s (codes "/getid") params
