-- ===== src/Base/Suffix.antt =====
-- `strings.HasSuffix`, `TrimSuffix`, `Trim` with one character, and `ReplaceAll` of one character.
use Prim.Native.Nat.{ℕ}
use Prim.Native.Char.{code}
use Prim.Native.String.{String, [], ◌∷◌, ◌++◌}
use mathlib.Core.Bool.{Bool, false, ◌||◌, ◌&&◌}
use text.Mathlib.Text.{◌==◌}
use barq_control_plane.Base.Tests.{eqb, if◌then◌else◌}

-- strings.HasSuffix(s, t)
unfoldable pub ends_with : String → String → Bool
ends_with [] t = t == ""
ends_with (c ∷ s) t = (c ∷ s) == t || ends_with s t

-- strings.TrimSuffix(s, t)
unfoldable pub trim_suffix : String → String → String
trim_suffix [] t = []
trim_suffix (c ∷ s) t = let rest = trim_suffix s t in if (c ∷ s) == t then [] else c ∷ rest

-- Does the text hold the character?
unfoldable pub has_char : ℕ → String → Bool
has_char n [] = false
has_char n (c ∷ s) = eqb (code c) n || has_char n s

trim_char_left : ℕ → String → String
trim_char_left n [] = []
trim_char_left n (c ∷ s) = let rest = trim_char_left n s in if eqb (code c) n then rest else c ∷ s

trim_char_right : ℕ → String → String
trim_char_right n [] = []
trim_char_right n (c ∷ s) =
    let rest = trim_char_right n s in if rest == "" && eqb (code c) n then [] else c ∷ rest

-- strings.Trim(s, t), where t is one character
unfoldable pub trim_char : ℕ → String → String
unfolding trim_char_left trim_char_right
trim_char n s = trim_char_right n (trim_char_left n s)

-- strings.ReplaceAll(s, t, u), where t is one character
unfoldable pub replace_char : ℕ → String → String → String
replace_char n u [] = []
replace_char n u (c ∷ s) =
    let rest = replace_char n u s in if eqb (code c) n then u ++ rest else c ∷ rest
