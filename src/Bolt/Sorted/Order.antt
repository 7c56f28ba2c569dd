-- ===== src/Bolt/Sorted/Order.antt =====
-- The order of the keys is a strict total order.
use gensokyo_discord.Prelude.{true, false, [], ◌∷◌, ◌≡◌, refl, Text, ◌==◌, arith}
use gensokyo_discord.Bolt.{text_ltb}

pub text_ltb_trans :
    (s t u : Text) → text_ltb s t ≡ true → text_ltb t u ≡ true → text_ltb s u ≡ true
text_ltb_trans [] (y ∷ t) (z ∷ u) h k = refl
text_ltb_trans (x ∷ s) (y ∷ t) (z ∷ u) h k = ground (arith, text_ltb_trans s t u)
text_ltb_trans [] [] u h k = cc
text_ltb_trans (x ∷ s) [] u h k = cc
text_ltb_trans s (y ∷ t) [] h k = cc

pub text_ltb_total : (s t : Text) → s == t ≡ false → text_ltb t s ≡ false → text_ltb s t ≡ true
text_ltb_total [] [] h k = cc
text_ltb_total [] (y ∷ t) h k = refl
text_ltb_total (x ∷ s) [] h k = cc
text_ltb_total (x ∷ s) (y ∷ t) h k = ground (arith, text_ltb_total s t)

pub text_ltb_irrefl : (s : Text) → text_ltb s s ≡ false
text_ltb_irrefl [] = refl
text_ltb_irrefl (x ∷ s) = ground (arith, text_ltb_irrefl s)
