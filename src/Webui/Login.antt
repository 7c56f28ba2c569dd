-- ===== src/Webui/Login.antt =====
-- `HandleLoginRequest`, `checkCredentials` and `HandleCheckLoginStatusRequest` of webui/api.go.
use gensokyo_discord.Prelude.{
  ℕ, ◌+◌, ◌<◌, Bool, true, false, not, ◌⊎◌, ◌&&◌, ◌||◌, Option, none, some, [], ◌≡◌, refl, Text,
  ◌==◌, eq_iff, eq_refl, codes, Outcome, ok, err, panicked, cookie_not_found, cookie_expired,
  Bool-cases, leb, leb→le, inl, inr, arith, if◌then◌else◌,
}
use gensokyo_discord.Strconv.{two_63, row_bytes}
use gensokyo_discord.Config.{Settings, get_server_user_name, get_server_user_password}
use gensokyo_discord.Bolt.{Bolt, accepts}
use gensokyo_discord.Webui.Cookie.{day, generate_cookie, validate_cookie, validate-generate_cookie}

unfoldable pub check_credentials : Option Settings → Text → Text → Bool
check_credentials s username password =
    (username == get_server_user_name s) && (password == get_server_user_password s)

pub data LoginReply : Type 0 where
  -- 400, 500, 401 and 200
  invalid_request : LoginReply
  cookie_failed : LoginReply
  refused : LoginReply
  logged_in : Text → LoginReply
  crashed : LoginReply

-- The error of a status is the text that stands beside isLoggedIn; it is empty where there is none.
pub record LoginStatus : Type 0 where
  pub status : ℕ
  pub is_logged_in : Bool
  pub error : Text

abbrev pub status_of : ℕ → Bool → Text → LoginStatus
status_of status is_logged_in error = record {
  status = status;
  is_logged_in = is_logged_in;
  error = error;
}

abbrev pub not_empty : Text → Bool
not_empty t = not (t == [])

unmatched :
    (s : Option Settings) (username password : Text)
    → (check_credentials s username password
        && (not_empty (get_server_user_name s) && not_empty (get_server_user_password s)))
      ≡ false
    → ((username == []) || (password == [])) ≡ false
    → check_credentials s username password ≡ false
unfolding check_credentials
unmatched s username password wrong filled =
    ground (
      arith,
      eq_iff username (get_server_user_name s),
      eq_iff password (get_server_user_password s),
    )

module _ (bolt : Bolt) (s : Option Settings) where
  open bolt use {Bucket}

  -- `body` is the username and the password of a request that could be decoded; both are required. `cookie` is
  -- the one that would be made.
  unfoldable pub handle_login_request :
      Option (Text × Text) → Text → ℕ → Bucket → LoginReply × Bucket
  unfolding check_credentials
  handle_login_request none cookie now b = (invalid_request, b)
  handle_login_request (some (username, password)) cookie now b =
      if (username == []) || (password == [])
      then (invalid_request, b)
      else if check_credentials s username password
      then elim (generate_cookie bolt cookie now b) as (λ _. LoginReply × Bucket) [
        | ok made ↦ (logged_in made.0, made.1)
        | err e ↦ (cookie_failed, b)
        | panicked ↦ (crashed, b)
      ]
      else (refused, b)

  abbrev status_of_result : Outcome Bool → Outcome LoginStatus
  status_of_result (ok true) = ok (status_of 200 true [])
  status_of_result (ok false) = ok (status_of 200 false (codes "Invalid cookie"))
  status_of_result (err cookie_not_found) = ok (status_of 200 false (codes "Cookie not found"))
  status_of_result (err cookie_expired) = ok (status_of 200 false (codes "Cookie has expired"))
  status_of_result (err e) = ok (status_of 500 false (codes "Internal server error"))
  status_of_result panicked = panicked

  unfoldable pub handle_check_login_status_request : Option Text → ℕ → Bucket → Outcome LoginStatus
  handle_check_login_status_request none now b =
      ok (status_of 200 false (codes "Cookie not provided"))
  handle_check_login_status_request (some cookie) now b =
      status_of_result (validate_cookie bolt cookie now b)

  -- With a configured username and password that are not empty, a login with these is answered with the
  -- cookie, by which the status is then logged in for a day, and expired at every later time.
  pub login_then_status :
      (cookie : Text) (now later : ℕ) (b : Bucket)
      → get_server_user_name s == [] ≡ false
      → get_server_user_password s == [] ≡ false
      → now + day < two_63
      → accepts cookie (row_bytes (now + day)) ≡ true
      → (b' : Bucket) × (handle_login_request
            (some (get_server_user_name s, get_server_user_password s))
            cookie
            now
            b
          ≡ (logged_in cookie, b'))
        × (handle_check_login_status_request (some cookie) later b'
            ≡ ok (
                if leb later (now + day)
                then status_of 200 true []
                else status_of 200 false (codes "Cookie has expired")))
  unfolding handle_login_request handle_check_login_status_request
  login_then_status cookie now later b named guarded early fits =
      let (b', made, valid, expired, others) =
        validate-generate_cookie bolt cookie now b early fits in
      (
        b',
        rw
            (
              named,
              guarded,
              eq_refl (get_server_user_name s),
              eq_refl (get_server_user_password s),
              made,
            )
            refl,
        elim (Bool-cases (leb later (now + day))) [
          | inl low ↦ rw (low, valid later (leb→le later (now + day) low)) refl
          | inr high ↦ rw (high, expired later (ground arith)) refl
        ],
      )

  -- A request with another username or password, or where one of the two that are configured is empty,
  -- is not logged in, and stores no cookie.
  pub login_refused :
      (username password cookie : Text) (now : ℕ) (b : Bucket)
      → (check_credentials s username password
          && (not_empty (get_server_user_name s) && not_empty (get_server_user_password s)))
        ≡ false
      → ((handle_login_request (some (username, password)) cookie now b).1 ≡ b)
        × (((handle_login_request (some (username, password)) cookie now b).0 ≡ invalid_request)
            ⊎ ((handle_login_request (some (username, password)) cookie now b).0 ≡ refused))
  unfolding handle_login_request
  login_refused username password cookie now b wrong =
      elim (Bool-cases ((username == []) || (password == []))) [
        | inl empty ↦ rw empty (refl, inl refl)
        | inr filled ↦
            (let no_match : check_credentials s username password ≡ false =
                unmatched s username password wrong filled in
              rw (filled, handle_login_request, no_match) (refl, inr refl))
      ]
