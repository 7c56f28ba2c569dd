-- ===== src/Server/Upload.antt =====
-- The rate limit of server/uploadpic.go and its two upload handlers. Base64, the image decoder and MD5
-- are arguments, and so is whether the file system lets the handler create its directory and its file.
pub mod Window
pub mod Files
use gensokyo_discord.Prelude.{
  ℕ, ◌-◌, Bool, true, false, Option, none, some, is_some, List, [], ◌∷◌, ◌++◌, Text, ◌==◌, codes,
  length, leb, ltb, if◌then◌else◌, Outcome, ok, err, panicked,
}
use gensokyo_discord.Config.{
  Settings, get_image_limit_b, get_frp_port, get_port_value, get_server_dir,
}

-- The times, in nanoseconds, of the requests of each address.
abbrev pub Counts : Type 0
Counts = Text → List ℕ

abbrev pub request_interval : ℕ
request_interval = 60000000000

-- The loop that removes expired entries, up to the first that is not.
unfoldable pub drop_expired : ℕ → List ℕ → List ℕ
drop_expired now [] = []
drop_expired now (t ∷ times) =
    let rest = drop_expired now times in if ltb request_interval (now - t) then rest else t ∷ times

abbrev pub set_times : Text → List ℕ → Counts → Counts
set_times ip times counts k = if k == ip then times else counts k

unfoldable pub check_and_update_rate_limit : Option Settings → Text → ℕ → Counts → Bool × Counts
unfolding drop_expired
check_and_update_rate_limit s ip now counts =
    let kept = drop_expired now (counts ip ++ (now ∷ [])) in
    (leb (length kept) (get_image_limit_b s), set_times ip kept counts)

unfoldable pub get_file_extension_from_image_format : Text → Text
get_file_extension_from_image_format format =
    if format == codes "jpeg"
    then codes "jpg"
    else if format == codes "gif"
    then codes "gif"
    else if format == codes "png"
    then codes "png"
    else []

-- The files below `./channel_temp/`, by name.
abbrev pub Files : Type 0
Files = Text → Option Text

pub data Uploaded : Type 0 where
  url : Text → Uploaded
  failed : ℕ → Text → Uploaded

unfoldable pub save_file : Bool → Text → Text → Files → Option Files
save_file writes name content files =
    if is_some (files name)
    then some files
    else if writes
    then some (λ k. if k == name then some content else files k)
    else none

module _ (s : Option Settings) (md5_hex : Text → Text) (decode : Text → Option Text)
    (format_of : Text → Option Text) (makes writes : Bool) where
  abbrev protocol : Text → Text
  protocol port = if port == codes "443" then codes "https" else codes "http"

  abbrev file_url : Text → Text → Text
  file_url port name =
      protocol port
      ++ (codes "://"
          ++ (get_server_dir s ++ (codes ":" ++ (port ++ (codes "/channel_temp/" ++ name)))))

  abbrev stun_or : Outcome Text → Text → Text → Text
  stun_or (ok []) name otherwise = otherwise
  stun_or (ok (c ∷ stun)) name otherwise =
      codes "http://" ++ ((c ∷ stun) ++ (codes "/channel_temp/" ++ name))
  stun_or (err e) name otherwise = otherwise
  stun_or panicked name otherwise = otherwise

  -- From the name of the file on.
  abbrev saved : Text → Text → Text → Files → Uploaded × Files
  saved address name content files =
      if makes
      then elim (save_file writes name content files) as (λ _. Uploaded × Files) [
        | none ↦ (failed 500 (codes "error saving file"), files)
        | some files' ↦
            (if get_server_dir s == []
              then (failed 500 (codes "server address is not configured"), files')
              else (url address, files'))
      ]
      else (failed 500 (codes "error creating directory"), files)

  abbrev image_name : Text → Text → Text
  image_name content extension = md5_hex content ++ (b'.' ∷ extension)

  -- `stun` is the setting that `HandleIpupdate` writes.
  unfoldable pub upload_base64_image : Outcome Text → Text → Files → Uploaded × Files
  unfolding save_file get_file_extension_from_image_format
  upload_base64_image stun body files = elim (decode body) as (λ _. Uploaded × Files) [
    | none ↦ (failed 400 (codes "invalid base64 data"), files)
    | some content ↦ elim (format_of content) as (λ _. Uploaded × Files) [
      | none ↦ (failed 400 (codes "undefined picture format1"), files)
      | some format ↦
          (let extension = get_file_extension_from_image_format format in
            let name = image_name content extension in
            let port = if get_frp_port s == codes "0" then get_port_value s else get_frp_port s in
            if extension == []
            then (failed 400 (codes "unsupported image format2"), files)
            else saved (stun_or stun name (file_url port name)) name content files)
    ]
  ]

  unfoldable pub upload_base64_record : Text → Files → Uploaded × Files
  unfolding save_file
  upload_base64_record body files = elim (decode body) as (λ _. Uploaded × Files) [
    | none ↦ (failed 400 (codes "invalid base64 data"), files)
    | some content ↦
        (let name = md5_hex content ++ codes ".silk" in
          saved (file_url (get_port_value s) name) name content files)
  ]

-- The handlers with their rate limit, which counts refused requests too.
unfoldable pub limited :
    Option Settings
    → (Files → Uploaded × Files)
    → Text
    → ℕ
    → Counts × Files
    → Uploaded × (Counts × Files)
unfolding check_and_update_rate_limit
limited s handler ip now (counts, files) =
    let (allowed, counts') = check_and_update_rate_limit s ip now counts in
    if allowed
    then (let (reply, files') = handler files in (reply, (counts', files')))
    else (failed 429 (codes "rate limit exceeded"), (counts', files))
