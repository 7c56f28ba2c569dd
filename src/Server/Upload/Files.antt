-- ===== src/Server/Upload/Files.antt =====
-- The files of the image host: named by their content, and never overwritten.
use gensokyo_discord.Prelude.{
  Bool, Option, none, some, [], ◌≡◌, sym, ap, ◌∙◌, Text, ◌==◌, eq_iff, codes, Bool-cases,
  Option-cases, on_option, on_if, inl, inr, if◌then◌else◌, Outcome,
}
use gensokyo_discord.Config.{Settings, get_server_dir}
use gensokyo_discord.Server.Upload.{
  Files, Uploaded, url, failed, save_file, upload_base64_image, upload_base64_record, saved,
  get_file_extension_from_image_format,
}

-- No file that is there gets another content.
Extends : Files → Files → Type 0
Extends old new = (name content : Text) → old name ≡ some content → new name ≡ some content

Extends-refl : (files : Files) → Extends files files
unfolding Extends
Extends-refl files name content h = h

written-Extends :
    (name content : Text) (files : Files)
    → files name ≡ none
    → Extends files (λ k. if k == name then some content else files k)
unfolding Extends
written-Extends name content files absent k c was = elim (Bool-cases (k == name)) [
  | inl own ↦
      (let e : k ≡ name = (eq_iff k name).0 own in
        let clash : none ≡ some c = sym absent ∙ ap files (sym e) ∙ was in cc)
  | inr other ↦ rw other was
]

SavedExtends : Files → Option Files → Type 0
SavedExtends files none = Unit
SavedExtends files (some files') = Extends files files'

save_file-Extends :
    (writes : Bool) (name content : Text) (files : Files)
    → SavedExtends files (save_file writes name content files)
unfolding save_file SavedExtends
save_file-Extends writes name content files = elim (Option-cases (files name)) [
  | inl (old, there) ↦ rw (there, save_file) (Extends-refl files)
  | inr absent ↦
      rw (absent, save_file)
        (on_if (SavedExtends files) writes (written-Extends name content files absent) tt)
]

module _ (s : Option Settings) (md5_hex : Text → Text) (decode : Text → Option Text)
    (format_of : Text → Option Text) (makes writes : Bool) (stun : Outcome Text) (body : Text)
    (files : Files) where
  ResultExtends : Uploaded × Files → Type 0
  ResultExtends r = Extends files r.1

  saved_result :
      (address : Text) (o : Option Files)
      → SavedExtends files o
      → ResultExtends (elim o as (λ _. Uploaded × Files) [
        | none ↦ (failed 500 (codes "error saving file"), files)
        | some files' ↦
            (if get_server_dir s == []
              then (failed 500 (codes "server address is not configured"), files')
              else (url address, files'))
      ])
  unfolding ResultExtends SavedExtends
  saved_result address none h = Extends-refl files
  saved_result address (some files') h = on_if ResultExtends (get_server_dir s == []) h h

  saved_extends :
      (address name content : Text)
      → ResultExtends (saved s md5_hex decode format_of makes writes address name content files)
  unfolding ResultExtends
  saved_extends address name content =
      on_if ResultExtends makes
        (saved_result address (save_file writes name content files)
          (save_file-Extends writes name content files))
        (Extends-refl files)

  kept_files :
      Extends files (upload_base64_image s md5_hex decode format_of makes writes stun body files).1
      × Extends files (upload_base64_record s md5_hex decode format_of makes writes body files).1
  unfolding upload_base64_image upload_base64_record ResultExtends
  kept_files = (
    on_option ResultExtends (decode body) (Extends-refl files) (λ content.
        on_option ResultExtends (format_of content) (Extends-refl files) (λ format.
          on_if ResultExtends (get_file_extension_from_image_format format == [])
            (Extends-refl files) (saved_extends _ _ content))),
    on_option ResultExtends (decode body) (Extends-refl files)
        (λ content. saved_extends _ _ content),
  )

  -- A file that is there has its content after an upload of an image and after that of a record, whatever is
  -- uploaded and whatever the upload answers.
  pub upload_keeps_files :
      (name content : Text)
      → files name ≡ some content
      → ((upload_base64_image s md5_hex decode format_of makes writes stun body files).1 name
          ≡ some content)
        × ((upload_base64_record s md5_hex decode format_of makes writes body files).1 name
            ≡ some content)
  unfolding Extends
  upload_keeps_files name content there =
      (kept_files.0 name content there, kept_files.1 name content there)
