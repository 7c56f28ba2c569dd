-- ===== src/Tests/Web.antt =====
-- Requests to the servers: uploads, connections and logins.
use gensokyo_discord.Prelude.{
  ℕ, ◌+◌, true, false, Option, none, some, [], ◌∷◌, ◌++◌, ◌≡◌, refl, Text, ◌==◌, codes, length,
  select, leb, arith, ok, err, no_value, if◌then◌else◌,
}
use gensokyo_discord.Config.{
  Settings, get_image_limit_b, get_server_user_name, get_server_user_password,
}
use gensokyo_discord.Strconv.{row_bytes}
use gensokyo_discord.Tests.Sample.{plain_settings}
use gensokyo_discord.Bolt.{Bolt}
use gensokyo_discord.Bolt.Sorted.{sorted_bolt, SortedBucket, sorted_run}
use gensokyo_discord.Server.Upload.{
  Files, check_and_update_rate_limit, upload_base64_image, upload_base64_record,
}
use gensokyo_discord.Server.Upload.Window.{
  Refines, within, times_of, no_counts-Refines, rate_limit-Refines,
}
use gensokyo_discord.Server.Upload.Files.{upload_keeps_files}
use gensokyo_discord.Server.Ws.{counts, served_while, remove_client, leaving_skips}
use gensokyo_discord.Webui.Cookie.{day}
use gensokyo_discord.Webui.Login.{
  handle_login_request, handle_check_login_status_request, logged_in, status_of, login_then_status,
}

abbrev address : Text
address = codes "10.0.0.1"

rate_limit-Refines_example :
    ((check_and_update_rate_limit (some plain_settings) address 5 (λ ip. [])).0
      ≡ leb
          (length (select (within 5) (times_of address ([] ++ ((address, 5) ∷ [])))))
          (get_image_limit_b (some plain_settings)))
    × Refines 5
        (check_and_update_rate_limit (some plain_settings) address 5 (λ ip. [])).1
        ([] ++ ((address, 5) ∷ []))
rate_limit-Refines_example =
    rate_limit-Refines (some plain_settings) 0 (λ ip. []) [] address 5 no_counts-Refines
      (omega arith)

leaving_skips_example :
    (counts 2
        (served_while 1 (length {A = ℕ} ([] ++ (1 ∷ []))) (([] ++ (1 ∷ [])) ++ (2 ∷ (3 ∷ []))))
      ≡ 0)
    × (counts 2 (remove_client 1 (([] ++ (1 ∷ [])) ++ (2 ∷ (3 ∷ [])))) ≡ 1)
unfolding counts
leaving_skips_example = leaving_skips 1 2 3 [] [] [] refl refl

abbrev one_file : Files
one_file name = if name == codes "a.png" then some (codes "old") else none

upload_keeps_files_example :
    ((upload_base64_image
          (some plain_settings)
          (λ c. codes "a")
          (λ b. some b)
          (λ c. some (codes "png"))
          true
          true
          (err no_value)
          (codes "new")
          one_file).1
        (codes "a.png")
      ≡ some (codes "old"))
    × ((upload_base64_record
            (some plain_settings)
            (λ c. codes "a")
            (λ b. some b)
            (λ c. some (codes "png"))
            true
            true
            (codes "new")
            one_file).1
          (codes "a.png")
        ≡ some (codes "old"))
upload_keeps_files_example =
    upload_keeps_files (some plain_settings) (λ c. codes "a") (λ b. some b)
      (λ c. some (codes "png")) true true (err no_value) (codes "new") one_file (codes "a.png")
      (codes "old") refl

abbrev panel : Option Settings
panel = some (record plain_settings { username = codes "ann"; password = codes "secret" })

abbrev no_cookies : SortedBucket
no_cookies = Bolt.empty sorted_bolt

login_then_status_example :
    (b' : SortedBucket) × (handle_login_request sorted_bolt panel
        (some (get_server_user_name panel, get_server_user_password panel))
        (codes "c1")
        1000
        no_cookies
      ≡ (logged_in (codes "c1"), b'))
    × (handle_check_login_status_request sorted_bolt panel (some (codes "c1")) 90000 b'
        ≡ ok (
            if leb 90000 (1000 + day)
            then status_of 200 true []
            else status_of 200 false (codes "Cookie has expired")))
unfolding sorted_run row_bytes
login_then_status_example =
    login_then_status sorted_bolt panel (codes "c1") 1000 90000 no_cookies refl refl (omega arith)
      refl
