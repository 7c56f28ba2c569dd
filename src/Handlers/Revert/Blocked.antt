-- ===== src/Handlers/Revert/Blocked.antt =====
-- Which messages the filters stop.
use gensokyo_discord.Prelude.{
  ℕ, Bool, true, false, not, ◌&&◌, ◌||◌, Option, List, [], ◌∷◌, ◌++◌, ◌≡◌, refl, Text, ◌==◌, codes,
  has_prefix, Bool-cases, ◌⊎◌, inl, inr,
}
use gensokyo_discord.Config.{Settings, get_visualk_prefixs}
use gensokyo_discord.Http.{Fetch}
use gensokyo_discord.Bolt.{Bolt}
use gensokyo_discord.Handlers.Types.{World, Sent}
use gensokyo_discord.Handlers.Revert.{Incoming, filtered}
use gensokyo_discord.Handlers.Revert.Filters.{
  Attachment, is_unlisted, is_black, cut_prefix, without_visual, image_code, with_images,
}

-- Some attachment is a picture.
unfoldable pub has_image : List Attachment → Bool
has_image [] = false
has_image (a ∷ attachments) = has_prefix a.content_type (codes "image/") || has_image attachments

not_empty_append : (s t : Text) → t == [] ≡ false → (s ++ t) == [] ≡ false
not_empty_append [] t h = h
not_empty_append (c ∷ s) t h = refl

not_empty_prefix : (s t : Text) → s == [] ≡ false → (s ++ t) == [] ≡ false
not_empty_prefix [] t h = cc
not_empty_prefix (c ∷ s) t h = refl

image_code-filled : (a : Attachment) → image_code a == [] ≡ false
unfolding image_code
image_code-filled a = refl

with_images-filled :
    (attachments : List Attachment) (text : Text)
    → text == [] ≡ false
    → with_images attachments text == [] ≡ false
unfolding with_images
with_images-filled [] text h = h
with_images-filled (a ∷ attachments) text h =
    elim (Bool-cases (has_prefix a.content_type (codes "image/"))) [
      | inl image ↦ rw image (
          with_images-filled attachments (text ++ image_code a)
            (not_empty_prefix text (image_code a) h))
      | inr plain ↦ rw plain (with_images-filled attachments text h)
    ]

with_images-empty :
    (attachments : List Attachment) (text : Text)
    → with_images attachments text == [] ≡ ((text == []) && not (has_image attachments))
unfolding with_images has_image
with_images-empty [] text = elim (Bool-cases (text == [])) [ inl e ↦ rw e refl | inr f ↦ rw f refl ]
with_images-empty (a ∷ attachments) text =
    elim (Bool-cases (has_prefix a.content_type (codes "image/"))) [
      | inl image ↦
          let filled =
            with_images-filled attachments (text ++ image_code a)
              (not_empty_append text (image_code a) (image_code-filled a)) in
          elim (Bool-cases (text == [])) [
            | inl e ↦ rw (image, filled, e) refl
            | inr f ↦ rw (image, filled, f) refl
          ]
      | inr plain ↦ rw plain (with_images-empty attachments text)
    ]

without_visual-empty : (prefixes : List Text) → cut_prefix prefixes [] ≡ []
unfolding cut_prefix
without_visual-empty [] = refl
without_visual-empty ([] ∷ prefixes) = refl
without_visual-empty ((c ∷ p) ∷ prefixes) = without_visual-empty prefixes

module _ (bolt : Bolt) (s : Option Settings) (fetch : Fetch) (md5_hex : Text → Text)
    (opens : Text → Bool) (delivers : Sent → Bool) (commands : List Text) (vgid : ℕ) (m : Incoming)
    (w : World bolt) where
  -- A message that the white list or the black list refuses comes out empty, and so is not processed,
  -- exactly where it has no picture: with one, what is left of it is the picture's code.
  pub refused_message_passes :
      (text : Text)
      → (is_unlisted s commands vgid text || is_black s text) ≡ true
      → (((filtered bolt s fetch md5_hex opens delivers commands vgid m text w).0 == [])
          ≡ not (has_image m.attachments))
        × ((filtered bolt s fetch md5_hex opens delivers commands vgid m text w).0
            ≡ with_images m.attachments [])
  unfolding filtered without_visual
  refused_message_passes text refused =
      refused_cases (Bool-cases (is_unlisted s commands vgid text))
    where
      refused_cases :
          (is_unlisted s commands vgid text ≡ true) ⊎ (is_unlisted s commands vgid text ≡ false)
          → (((filtered bolt s fetch md5_hex opens delivers commands vgid m text w).0 == [])
              ≡ not (has_image m.attachments))
            × ((filtered bolt s fetch md5_hex opens delivers commands vgid m text w).0
                ≡ with_images m.attachments [])
      refused_cases (inl unlisted) = elim (Bool-cases (is_black s [])) [
        | inl black ↦
            rw (unlisted, filtered, black, without_visual-empty (get_visualk_prefixs s))
              (with_images-empty m.attachments [], refl)
        | inr not_black ↦
            rw (unlisted, filtered, not_black, without_visual-empty (get_visualk_prefixs s))
              (with_images-empty m.attachments [], refl)
      ]
      refused_cases (inr listed) =
          let black : is_black s text ≡ true = rw listed at refused in
          rw (listed, filtered, black, without_visual-empty (get_visualk_prefixs s))
            (with_images-empty m.attachments [], refl)
