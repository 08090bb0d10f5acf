-- ===== src/Base/Keys.antt =====
-- Texts that are built from parts: where they can be cut again.
use Prim.Native.Nat.{ℕ, zero, suc, ◌-◌, ◌/◌, ◌%◌, ◌^◌, ◌≤◌, ◌<◌}
use Prim.Native.Char.{Char, code, len_utf8}
use Prim.Native.String.{String, [], ◌∷◌, ◌++◌, count, len}
use Prim.Native.String.append
use Prim.Native.String.len as len_of
use mathlib.Core.Path.{◌≡◌, refl, sym, ap, ap₂}
use mathlib.Core.Logic.{◌≢◌, inl, inr}
use mathlib.Core.Bool.{Bool, true, false, ◌&&◌}
use native.Mathlib.Omega.{arith}
use native.Mathlib.Nat.{pow-suc}
use text.Mathlib.TextLemmas.{length-append, length-nil, length-cons, cons-eq-cons}
use text.Mathlib.TextPositions.{len_utf8-pos}
use barq_control_plane.Base.Tests.{ltb, leb, Bool-cases}
use barq_control_plane.Base.Text.{every}
use barq_control_plane.Base.Decimal.{digit, digits_of, decimal, zeros, padded}

abbrev is_digit : ℕ → Bool
is_digit c = leb b'0' c && leb c b'9'

every-append :
    (p : ℕ → Bool) (s t : String) → every p s ≡ true → every p t ≡ true → every p (s ++ t) ≡ true
unfolding every
every-append p [] t h k = rw append.nil k
every-append p (c ∷ s) t h k = rw append.cons (ground (arith, every-append p s t))

every-digit : (d : ℕ) → every is_digit (digit d) ≡ true
unfolding every digit
every-digit zero = refl
every-digit (suc zero) = refl
every-digit (suc (suc zero)) = refl
every-digit (suc (suc (suc zero))) = refl
every-digit (suc (suc (suc (suc zero)))) = refl
every-digit (suc (suc (suc (suc (suc zero))))) = refl
every-digit (suc (suc (suc (suc (suc (suc zero)))))) = refl
every-digit (suc (suc (suc (suc (suc (suc (suc zero))))))) = refl
every-digit (suc (suc (suc (suc (suc (suc (suc (suc zero)))))))) = refl
every-digit (suc (suc (suc (suc (suc (suc (suc (suc (suc n))))))))) = refl

every-digits_of : (fuel n : ℕ) → every is_digit (digits_of fuel n) ≡ true
unfolding digits_of every
every-digits_of zero n = refl
every-digits_of (suc fuel) n = elim (Bool-cases (ltb n 10)) [
  | inl p ↦ rw p (every-digit n)
  | inr p ↦ rw p (
      every-append is_digit (digits_of fuel (n / 10)) (digit (n % 10))
        (every-digits_of fuel (n / 10)) (every-digit (n % 10)))
]

pub every-decimal : (n : ℕ) → every is_digit (decimal n) ≡ true
unfolding decimal
every-decimal n = every-digits_of (suc n) n

pub colon_cons : (x : String) → ":" ++ x ≡ ◌∷◌ ":" x
colon_cons x = rw (append.cons, append.nil)

not_colon : (c : Char) (a : String) → every is_digit (c ∷ a) ≡ true → c ≢ ":"
unfolding every
not_colon c a h e = ground (arith, ap code e)

every-tail : (c : Char) (a : String) → every is_digit (c ∷ a) ≡ true → every is_digit a ≡ true
unfolding every
every-tail c a h = ground arith

-- Two texts of digits, each followed by a colon and a rest, are cut at the colon in one way.
pub cut_at_colon :
    (a b x y : String)
    → every is_digit a ≡ true
    → every is_digit b ≡ true
    → a ++ (":" ++ x) ≡ b ++ (":" ++ y)
    → (a ≡ b) × (x ≡ y)
cut_at_colon [] [] x y p q h = (refl, (cons-eq-cons.0 (simp (append.nil, colon_cons) at h)).1)
cut_at_colon [] (d ∷ b) x y p q h =
    let e = cons-eq-cons.0 (simp (append.nil, append.cons, colon_cons) at h) in
    absurd (not_colon d b q (sym e.0))
cut_at_colon (c ∷ a) [] x y p q h =
    let e = cons-eq-cons.0 (simp (append.nil, append.cons, colon_cons) at h) in
    absurd (not_colon c a p e.0)
cut_at_colon (c ∷ a) (d ∷ b) x y p q h =
    let e = cons-eq-cons.0 (simp append.cons at h) in
    let ih = cut_at_colon a b x y (every-tail c a p) (every-tail d b q) e.1 in
    (ap₂ ◌∷◌ e.0 ih.0, ih.1)

-- Texts of one length in bytes, each followed by a rest, are cut in one way.
pub cut_at_len : (s t x y : String) → len s ≡ len t → s ++ x ≡ t ++ y → (s ≡ t) × (x ≡ y)
cut_at_len [] [] x y p h = (refl, simp append.nil at h)
cut_at_len [] (d ∷ t) x y p h =
    absurd (omega (arith, p, len_of.nil, len_of.cons d t, (len_utf8-pos d).1))
cut_at_len (c ∷ s) [] x y p h =
    absurd (omega (arith, p, len_of.nil, len_of.cons c s, (len_utf8-pos c).1))
cut_at_len (c ∷ s) (d ∷ t) x y p h =
    let e = cons-eq-cons.0 (simp append.cons at h) in
    let ih =
      cut_at_len s t x y (omega (arith, p, len_of.cons c s, len_of.cons d t, ap len_utf8 e.0))
        e.1 in
    (ap₂ ◌∷◌ e.0 ih.0, ih.1)

-- Texts of one number of characters, each followed by a rest, are cut in one way.
pub cut_at_count : (s t x y : String) → count s ≡ count t → s ++ x ≡ t ++ y → (s ≡ t) × (x ≡ y)
cut_at_count [] [] x y p h = (refl, simp append.nil at h)
cut_at_count [] (d ∷ t) x y p h = absurd (omega (arith, p, length-nil, length-cons d t))
cut_at_count (c ∷ s) [] x y p h = absurd (omega (arith, p, length-nil, length-cons c s))
cut_at_count (c ∷ s) (d ∷ t) x y p h =
    let e = cons-eq-cons.0 (simp append.cons at h) in
    let ih = cut_at_count s t x y (omega (arith, p, length-cons c s, length-cons d t)) e.1 in
    (ap₂ ◌∷◌ e.0 ih.0, ih.1)

count-digit : (d : ℕ) → count (digit d) ≡ 1
unfolding digit
count-digit zero = refl
count-digit (suc zero) = refl
count-digit (suc (suc zero)) = refl
count-digit (suc (suc (suc zero))) = refl
count-digit (suc (suc (suc (suc zero)))) = refl
count-digit (suc (suc (suc (suc (suc zero))))) = refl
count-digit (suc (suc (suc (suc (suc (suc zero)))))) = refl
count-digit (suc (suc (suc (suc (suc (suc (suc zero))))))) = refl
count-digit (suc (suc (suc (suc (suc (suc (suc (suc zero)))))))) = refl
count-digit (suc (suc (suc (suc (suc (suc (suc (suc (suc n))))))))) = refl

not_small : (n : ℕ) → ltb n 10 ≡ false → 10 ≤ n
not_small n p = ground arith

longer :
    (fuel n k : ℕ)
    → n < 10 ^ suc k
    → 10 ≤ n
    → ((j : ℕ) → n / 10 < 10 ^ suc j → count (digits_of fuel (n / 10)) ≤ suc j)
    → count (digits_of fuel (n / 10) ++ digit (n % 10)) ≤ suc k
longer fuel n zero h p ih = absurd (omega arith)
longer fuel n (suc k) h p ih = omega (
  arith,
  length-append (digits_of fuel (n / 10)) (digit (n % 10)),
  count-digit (n % 10),
  ih k (omega (arith, h, pow-suc 10 (suc k))),
)

count-digits_of : (fuel n k : ℕ) → n < 10 ^ suc k → count (digits_of fuel n) ≤ suc k
unfolding digits_of
count-digits_of zero n k h = omega (arith, length-nil)
count-digits_of (suc fuel) n k h = elim (Bool-cases (ltb n 10)) [
  | inl p ↦ rw p (omega (arith, count-digit n))
  | inr p ↦ rw p (longer fuel n k h (not_small n p) (count-digits_of fuel (n / 10)))
]

pub count-decimal : (n k : ℕ) → n < 10 ^ suc k → count (decimal n) ≤ suc k
unfolding decimal
count-decimal n k h = count-digits_of (suc n) n k h

count-zeros : (n : ℕ) → count (zeros n) ≡ n
unfolding zeros
count-zeros zero = length-nil
count-zeros (suc n) = omega (arith, length-append "0" (zeros n), count-zeros n)

-- A number of at most twenty digits, as every uint64 is, is padded to exactly twenty.
pub count-padded : (n : ℕ) → n < 2 ^ 64 → count (padded n) ≡ 20
unfolding padded
count-padded n h = omega (
  arith,
  length-append (zeros (20 - count (decimal n))) (decimal n),
  count-zeros (20 - count (decimal n)),
  count-decimal n 19 (omega arith),
)
