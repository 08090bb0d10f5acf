-- ===== src/Base/Order.antt =====
-- The order of texts by their code points, which is the order of their bytes in UTF-8.
use Prim.Native.Nat.{Ordering}
use Prim.Native.String.{String, [], ◌∷◌, compare}
use Prim.Native.String.compare as cmp
use mathlib.Core.Path.{◌≡◌}
use mathlib.Core.Bool.{Bool, true, false}
use native.Mathlib.Omega.{arith}
use text.Mathlib.Text.{◌==◌}

-- `a <= b` on texts: by code points, which is the order of their bytes.
abbrev pub str_leb : String → String → Bool
str_leb a b = elim (compare a b) [ Ordering.gt ↦ false | _ ↦ true ]

pub str_leb_total : (a b : String) → str_leb a b ≡ false → str_leb b a ≡ true
str_leb_total [] [] h = ground (arith, cmp.nil-nil)
str_leb_total [] (d ∷ t) h = ground (arith, cmp.nil-cons d t)
str_leb_total (c ∷ s) [] h = ground (arith, cmp.nil-cons c s)
str_leb_total (c ∷ s) (d ∷ t) h =
    ground (arith, cmp.cons-cons c d s t, cmp.cons-cons d c t s, str_leb_total s t)

pub str_leb_trans : (a b c : String) → str_leb a b ≡ true → str_leb b c ≡ true → str_leb a c ≡ true
str_leb_trans [] [] [] h k = ground (arith, cmp.nil-nil)
str_leb_trans [] b (e ∷ u) h k = ground (arith, cmp.nil-cons e u)
str_leb_trans [] (d ∷ t) [] h k = ground (arith, cmp.cons-nil d t)
str_leb_trans (c ∷ s) [] u h k = ground (arith, cmp.cons-nil c s)
str_leb_trans (c ∷ s) (d ∷ t) [] h k = ground (arith, cmp.cons-nil d t)
str_leb_trans (c ∷ s) (d ∷ t) (e ∷ u) h k = ground (
  arith,
  cmp.cons-cons c d s t,
  cmp.cons-cons d e t u,
  cmp.cons-cons c e s u,
  str_leb_trans s t u,
)

-- Texts that are each before the other are one text.
pub str_leb_both : (a b : String) → str_leb a b ≡ true → str_leb b a ≡ true → (a == b) ≡ true
str_leb_both [] [] h k = ground (arith, cmp.nil-nil)
str_leb_both [] (d ∷ t) h k = ground (arith, cmp.nil-cons d t, cmp.cons-nil d t)
str_leb_both (c ∷ s) [] h k = ground (arith, cmp.nil-cons c s, cmp.cons-nil c s)
str_leb_both (c ∷ s) (d ∷ t) h k =
    ground (arith, cmp.cons-cons c d s t, cmp.cons-cons d c t s, str_leb_both s t)
