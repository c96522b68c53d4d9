-- ===== src/Prelude/Strings.antt =====
-- A Go string as the list of its bytes, with the parts of package strings that the program calls.
use Prim.Native.Nat.{ℕ, ◌+◌}
use Prim.Native.Char.{code}
use Prim.Native.String.{String}
use mathlib.Core.Path.{◌≡◌, refl, sym, ◌∙◌}
use mathlib.Core.Logic.{◌↔◌, inl, inr}
use mathlib.Core.Bool.{false≢true, Bool, true, false, ◌&&◌, ◌||◌}
use mathlib.Core.List.{List, [], ◌∷◌, reverse, reverse_aux, reverse-reverse}
use f1337_mcp.Prelude.Lists.{All}
use native.Mathlib.Omega.{arith}
use f1337_mcp.Prelude.Tests.{Bool-cases, leb, ◌==◌, if◌then◌else◌}

abbrev pub Text : Type 0
Text = List ℕ

-- The code points of a literal: its bytes, if it is ASCII.
abbrev pub codes : String → Text
codes String.[] = []
codes (String.◌∷◌ c s) = code c ∷ codes s

-- `a == b` on strings
unfoldable pub eq_text : Text → Text → Bool
eq_text [] [] = true
eq_text [] (y ∷ ys) = false
eq_text (x ∷ xs) [] = false
eq_text (x ∷ xs) (y ∷ ys) = (x == y) && eq_text xs ys

pub eq_text_iff : (s t : Text) → (eq_text s t ≡ true) ↔ (s ≡ t)
unfolding eq_text
eq_text_iff [] [] = ground arith
eq_text_iff [] (y ∷ ys) = ground arith
eq_text_iff (x ∷ xs) [] = ground arith
eq_text_iff (x ∷ xs) (y ∷ ys) = ground (arith, eq_text_iff xs ys)

pub eq_text_refl : (s : Text) → eq_text s s ≡ true
eq_text_refl s = (eq_text_iff s s).1 refl

pub eq_text-false : (s t : Text) → eq_text s t ≡ false → eq_text t s ≡ false
eq_text-false s t h = elim (Bool-cases (eq_text t s)) [
  | inl e ↦ absurd (false≢true (sym h ∙ (eq_text_iff s t).1 (sym ((eq_text_iff t s).0 e))))
  | inr e ↦ e
]

-- strings.HasPrefix
unfoldable pub has_prefix : Text → Text → Bool
has_prefix s [] = true
has_prefix [] (p ∷ ps) = false
has_prefix (x ∷ s) (p ∷ ps) = (x == p) && has_prefix s ps

-- The ASCII white space that strings.TrimSpace drops.
abbrev pub is_space : ℕ → Bool
is_space c = c == 32 || (leb 9 c && leb c 13)

unfoldable pub trim_left : Text → Text
trim_left [] = []
trim_left (c ∷ s) = let rest = trim_left s in if is_space c then rest else c ∷ s

-- strings.TrimSpace, on ASCII text
unfoldable pub trim_space : Text → Text
unfolding trim_left
trim_space s = reverse (trim_left (reverse (trim_left s)))

trim_left-solid : (s : Text) → All (λ c. is_space c ≡ false) s → trim_left s ≡ s
unfolding trim_left
trim_left-solid [] h = refl
trim_left-solid (c ∷ s) h = rw h.0 refl

reverse_aux-All :
    (s acc : Text)
    → All (λ c. is_space c ≡ false) s
    → All (λ c. is_space c ≡ false) acc
    → All (λ c. is_space c ≡ false) (reverse_aux s acc)
reverse_aux-All [] acc h k = k
reverse_aux-All (c ∷ s) acc h k = reverse_aux-All s (c ∷ acc) h.1 (h.0, k)

-- A text without white space has none to trim.
pub trim_space-solid : (s : Text) → All (λ c. is_space c ≡ false) s → trim_space s ≡ s
unfolding trim_space
trim_space-solid s h =
    rw (trim_left-solid s h)
      (rw (trim_left-solid (reverse s) (reverse_aux-All s [] h tt)) (reverse-reverse s))

-- strings.ContainsRune, strings.Contains with a one-byte needle
unfoldable pub contains_byte : ℕ → Text → Bool
contains_byte b [] = false
contains_byte b (c ∷ s) = c == b || contains_byte b s

-- ASCII lower case
abbrev pub lower_byte : ℕ → ℕ
lower_byte c = if leb 65 c && leb c 90 then c + 32 else c
