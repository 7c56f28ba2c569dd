-- ===== src/Handlers/Revert/Filters.antt =====
-- The prefixes by which messages are refused or shortened, and the pictures of a message.
use gensokyo_discord.Prelude.{
  ℕ, Bool, true, false, not, ◌&&◌, ◌||◌, Option, List, [], ◌∷◌, ◌++◌, Text, codes, has_prefix,
  contains_byte, drop, length, eqb, ltb, if◌then◌else◌,
}
use gensokyo_discord.Config.{
  Settings, get_white_prefix_mode, get_white_prefixs, get_white_bypass, get_black_prefix_mode,
  get_black_prefixs, get_visualk_prefixs,
}

pub record Attachment : Type 0 where
  pub content_type : Text
  pub filename : Text
  pub url : Text

-- The first slash is removed.
unfoldable pub remove_slash : Text → Text
remove_slash [] = []
remove_slash (c ∷ s) = let rest = c ∷ remove_slash s in if eqb c b'/' then s else rest

unfoldable pub any_prefix : List Text → Text → Bool
any_prefix [] text = false
any_prefix (p ∷ prefixes) text = if has_prefix text p then true else any_prefix prefixes text

unfoldable pub any_id : List ℕ → ℕ → Bool
any_id [] id = false
any_id (i ∷ ids) id = if eqb i id then true else any_id ids id

-- The white list: no exception for the conversation, and no prefix.
unfoldable pub is_unlisted : Option Settings → List Text → ℕ → Text → Bool
unfolding any_prefix any_id
is_unlisted s commands vgid text =
    get_white_prefix_mode s
    && not (any_id (get_white_bypass s) vgid)
    && not (any_prefix (get_white_prefixs s ++ commands) text)

unfoldable pub is_black : Option Settings → Text → Bool
unfolding any_prefix
is_black s text = get_black_prefix_mode s && any_prefix (get_black_prefixs s) text

-- The first visual prefix is removed, unless it is the whole text.
unfoldable pub cut_prefix : List Text → Text → Text
cut_prefix [] text = text
cut_prefix (p ∷ prefixes) text =
    if has_prefix text p
    then (if ltb (length p) (length text) then drop (length p) text else text)
    else cut_prefix prefixes text

unfoldable pub without_visual : Option Settings → Text → Text
unfolding cut_prefix
without_visual s text = cut_prefix (get_visualk_prefixs s) text

-- A file name without what filepath.Ext finds: from its last dot on, if no slash comes behind.
unfoldable pub without_extension : Text → Text
without_extension [] = []
without_extension (c ∷ s) =
    let rest = c ∷ without_extension s in
    if eqb c b'.' && not (contains_byte b'.' s) && not (contains_byte b'/' s) then [] else rest

abbrev full_url : Text → Text
full_url url =
    if has_prefix url (codes "http://") || has_prefix url (codes "https://")
    then url
    else codes "http://" ++ url

unfoldable pub image_code : Attachment → Text
unfolding without_extension
image_code a =
    codes "[CQ:image,file="
    ++ (without_extension a.filename
        ++ (codes ".image,subType=0,url=" ++ (full_url a.url ++ codes "]")))

unfoldable pub with_images : List Attachment → Text → Text
unfolding image_code
with_images [] text = text
with_images (a ∷ attachments) text =
    with_images attachments
      (if has_prefix a.content_type (codes "image/") then text ++ image_code a else text)
