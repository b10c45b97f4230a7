-- ===== src/Prelude/Texts/Order.antt =====
-- The order of texts is total and antisymmetric.
use mathlib.Core.Path.{◌≡◌, refl}
use mathlib.Core.Bool.{true, false}
use mathlib.Core.List.{[], ◌∷◌}
use native.Mathlib.Omega.{arith}
use repolith.Prelude.Equality.{nat_eq}
use repolith.Prelude.Texts.{Text, text_le}

pub text_le_refl : (s : Text) → text_le s s ≡ true
unfolding text_le
text_le_refl [] = refl
text_le_refl (c ∷ s) = ground (arith, text_le_refl s)

pub text_le_total : (s t : Text) → text_le s t ≡ false → text_le t s ≡ true
unfolding text_le
text_le_total [] t h = cc
text_le_total (c ∷ s) [] h = refl
text_le_total (c ∷ s) (d ∷ t) h = ground (arith, text_le_total s t)

pub text_le_antisym : (s t : Text) → text_le s t ≡ true → text_le t s ≡ true → s ≡ t
unfolding text_le
text_le_antisym [] [] h k = refl
text_le_antisym [] (d ∷ t) h k = cc
text_le_antisym (c ∷ s) [] h k = cc
text_le_antisym (c ∷ s) (d ∷ t) h k = ground (arith, text_le_antisym s t)

pub text_le_trans : (s t u : Text) → text_le s t ≡ true → text_le t u ≡ true → text_le s u ≡ true
unfolding text_le
text_le_trans [] t u h k = refl
text_le_trans (c ∷ s) [] u h k = cc
text_le_trans (c ∷ s) (d ∷ t) [] h k = cc
text_le_trans (c ∷ s) (d ∷ t) (e ∷ u) h k = ground (arith, text_le_trans s t u)
