-- ===== src/Base/Split.antt =====
-- `strings.Split` and `strings.SplitN` at one character, and prefixes of a text.
use Prim.Native.Nat.{ℕ, zero, suc}
use Prim.Native.Char.{Char, code}
use Prim.Native.String.{String, [], ◌∷◌}
use mathlib.Core.List as L
use mathlib.Core.List.{List}
use barq_control_plane.Base.Tests.{eqb, if◌then◌else◌}

-- Puts a character in front of the first part.
abbrev pub before_first : Char → List String → List String
before_first c L.[] = L.◌∷◌ (c ∷ []) L.[]
before_first c (L.◌∷◌ part parts) = L.◌∷◌ (c ∷ part) parts

-- strings.Split(s, sep)
unfoldable pub split : ℕ → String → List String
split sep [] = L.◌∷◌ [] L.[]
split sep (c ∷ s) =
    let rest = split sep s in if eqb (code c) sep then L.◌∷◌ [] rest else before_first c rest

-- strings.SplitN(s, sep, n + 1): at most n cuts.
unfoldable pub split_cuts : ℕ → ℕ → String → List String
split_cuts sep n [] = L.◌∷◌ [] L.[]
split_cuts sep zero (c ∷ s) = L.◌∷◌ (c ∷ s) L.[]
split_cuts sep (suc n) (c ∷ s) =
    let cut = split_cuts sep n s in
    let on = split_cuts sep (suc n) s in
    if eqb (code c) sep then L.◌∷◌ [] cut else before_first c on

-- The first n characters.
unfoldable pub take : ℕ → String → String
take zero s = []
take (suc n) [] = []
take (suc n) (c ∷ s) = c ∷ take n s
