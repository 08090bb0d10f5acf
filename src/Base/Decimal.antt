-- ===== src/Base/Decimal.antt =====
-- `fmt.Sprintf` of a number, `%d` and `%020d`, and texts that are cut at a separator.
use Prim.Native.Nat.{ℕ, zero, suc, ◌+◌, ◌-◌, ◌*◌, ◌/◌, ◌%◌, ◌<◌}
use Prim.Native.Char.{code}
use Prim.Native.String.{String, [], ◌∷◌, ◌++◌, count}
use Prim.Native.String.append
use mathlib.Core.Path.{◌≡◌, refl, sym, ap, ◌∙◌}
use mathlib.Core.Logic.{inl, inr}
use native.Mathlib.Omega.{arith}
use barq_control_plane.Base.Tests.{ltb, if◌then◌else◌, Bool-cases}

unfoldable pub digit : ℕ → String
digit zero = "0"
digit (suc zero) = "1"
digit (suc (suc zero)) = "2"
digit (suc (suc (suc zero))) = "3"
digit (suc (suc (suc (suc zero)))) = "4"
digit (suc (suc (suc (suc (suc zero))))) = "5"
digit (suc (suc (suc (suc (suc (suc zero)))))) = "6"
digit (suc (suc (suc (suc (suc (suc (suc zero))))))) = "7"
digit (suc (suc (suc (suc (suc (suc (suc (suc zero)))))))) = "8"
digit (suc (suc (suc (suc (suc (suc (suc (suc (suc n))))))))) = "9"

-- The digits of `n`, with fuel.
unfoldable pub digits_of : ℕ → ℕ → String
unfolding digit
digits_of zero n = []
digits_of (suc fuel) n =
    let rest = digits_of fuel (n / 10) in if ltb n 10 then digit n else rest ++ digit (n % 10)

-- `%d`
unfoldable pub decimal : ℕ → String
unfolding digits_of
decimal n = digits_of (suc n) n

unfoldable pub zeros : ℕ → String
zeros zero = []
zeros (suc n) = "0" ++ zeros n

-- `%020d`
unfoldable pub padded : ℕ → String
unfolding zeros decimal
padded n = let s = decimal n in zeros (20 - count s) ++ s

-- The number that the digits after `acc` spell.
value : ℕ → String → ℕ
value acc [] = acc
value acc (c ∷ s) = value (acc * 10 + (code c - 48)) s

value-append : (acc : ℕ) (s t : String) → value acc (s ++ t) ≡ value (value acc s) t
unfolding value
value-append acc [] t = rw append.nil
value-append acc (c ∷ s) t = rw append.cons (value-append (acc * 10 + (code c - 48)) s t)

value-digit : (acc d : ℕ) → d < 10 → value acc (digit d) ≡ acc * 10 + d
unfolding value digit
value-digit acc zero h = refl
value-digit acc (suc zero) h = refl
value-digit acc (suc (suc zero)) h = refl
value-digit acc (suc (suc (suc zero))) h = refl
value-digit acc (suc (suc (suc (suc zero)))) h = refl
value-digit acc (suc (suc (suc (suc (suc zero))))) h = refl
value-digit acc (suc (suc (suc (suc (suc (suc zero)))))) h = refl
value-digit acc (suc (suc (suc (suc (suc (suc (suc zero))))))) h = refl
value-digit acc (suc (suc (suc (suc (suc (suc (suc (suc zero)))))))) h = refl
value-digit acc (suc (suc (suc (suc (suc (suc (suc (suc (suc zero))))))))) h = refl
value-digit acc (suc (suc (suc (suc (suc (suc (suc (suc (suc (suc n)))))))))) h =
    absurd (omega arith)

value-digits_of : (fuel n : ℕ) → n < fuel → value 0 (digits_of fuel n) ≡ n
unfolding digits_of
value-digits_of zero n h = elim h [ ]
value-digits_of (suc fuel) n h = elim (Bool-cases (ltb n 10)) [
  | inl p ↦ rw p (value-digit 0 n (ground arith) ∙ omega arith)
  | inr p ↦
      rw (p, value-append, value-digits_of fuel (n / 10) (ground arith))
        (value-digit (n / 10) (n % 10) (omega arith) ∙ omega arith)
]

value-decimal : (n : ℕ) → value 0 (decimal n) ≡ n
unfolding decimal
value-decimal n = value-digits_of (suc n) n (omega arith)

value-zeros : (n : ℕ) (s : String) → value 0 (zeros n ++ s) ≡ value 0 s
unfolding value zeros
value-zeros zero s = rw append.nil
value-zeros (suc n) s = rw (append.cons, append.nil, append.cons) (value-zeros n s)

-- Different numbers are printed differently.
pub decimal-injective : (m n : ℕ) → decimal m ≡ decimal n → m ≡ n
decimal-injective m n h = sym (value-decimal m) ∙ ap (value 0) h ∙ value-decimal n

pub padded-injective : (m n : ℕ) → padded m ≡ padded n → m ≡ n
unfolding padded
padded-injective m n h =
    sym (value-decimal m)
    ∙ sym (value-zeros _ (decimal m))
    ∙ ap (value 0) h
    ∙ value-zeros _ (decimal n)
    ∙ value-decimal n
