-- ===== src/Common/Text.antt =====
-- Texts that the code walks character by character, as lists of code points. `trim` and the case
-- conversions are those of JavaScript on ASCII texts.
use Prim.Native.Char.{code}
use Prim.Native.String.{String}
use hakawi.Common.Tests.{leb, eqb, if◌then◌else◌}
use Prim.Native.Nat.{ℕ, ◌+◌, ◌-◌}
use mathlib.Core.Bool.{Bool, true, false, ◌&&◌, ◌||◌}
use mathlib.Core.List.{List, [], ◌∷◌, map, reverse}

abbrev pub Text : Type 0
Text = List ℕ

abbrev pub codes : String → Text
codes String.[] = []
codes (String.◌∷◌ c s) = code c ∷ codes s

abbrev pub same_text : Text → Text → Bool
same_text [] [] = true
same_text (a ∷ s) (b ∷ t) = eqb a b && same_text s t
same_text _ _ = false

-- Tab, line feed, vertical tab, form feed, carriage return, space.
abbrev pub is_space : ℕ → Bool
is_space c = (leb 9 c && leb c 13) || eqb c 32

abbrev pub trim_start : Text → Text
trim_start [] = []
trim_start (c ∷ s) = if is_space c then trim_start s else c ∷ s

unfoldable pub trim : Text → Text
trim s = reverse (trim_start (reverse (trim_start s)))

abbrev pub is_lower : ℕ → Bool
is_lower c = leb b'a' c && leb c b'z'

abbrev pub is_upper : ℕ → Bool
is_upper c = leb b'A' c && leb c b'Z'

unfoldable pub to_lower_case : Text → Text
to_lower_case s = map (λ c. if is_upper c then c + 32 else c) s

unfoldable pub to_upper_case : Text → Text
to_upper_case s = map (λ c. if is_lower c then c - 32 else c) s
