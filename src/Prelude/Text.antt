-- ===== src/Prelude/Text.antt =====
-- What the program uses of Go's `strings`: TrimSpace, ToLower, HasPrefix with TrimPrefix. A text is
-- a native `String`; positions and lengths in bytes are the library's `len`.
use Prim.Native.Nat.{ℕ, ◌+◌}
use Prim.Native.Char.{Char, code}
use Prim.Native.String.{String}
use mathlib.Core.Path.{◌≡◌, refl}
use mathlib.Core.Logic.{inl, inr}
use mathlib.Core.Bool.{Bool, true, false, ◌&&◌, ◌||◌}
use mathlib.Core.Option.{Option, none, some}
use mathlib.Core.List.{List, [], ◌∷◌}
use native.Mathlib.Omega.{arith}
use proto_radar.Prelude.Tests.{leb, eqb, if◌then◌else◌, Bool-cases}

-- unicode.IsSpace
pub is_space : ℕ → Bool
is_space c =
    (leb 9 c && leb c 13)
    || eqb c 32
    || eqb c 0x85
    || eqb c 0xA0
    || eqb c 0x1680
    || (leb 0x2000 c && leb c 0x200A)
    || eqb c 0x2028
    || eqb c 0x2029
    || eqb c 0x202F
    || eqb c 0x205F
    || eqb c 0x3000

trim_left : String → String
trim_left String.[] = String.[]
trim_left (String.◌∷◌ c s) = if is_space (code c) then trim_left s else String.◌∷◌ c s

-- One more character before a text whose right end is trimmed.
trim_cons : Char → String → String
trim_cons c String.[] = if is_space (code c) then String.[] else String.◌∷◌ c String.[]
trim_cons c (String.◌∷◌ d s) = String.◌∷◌ c (String.◌∷◌ d s)

trim_right : String → String
unfolding trim_cons
trim_right String.[] = String.[]
trim_right (String.◌∷◌ c s) = trim_cons c (trim_right s)

-- strings.TrimSpace
unfoldable pub trim_space : String → String
unfolding trim_left trim_right is_space
trim_space s = trim_right (trim_left s)

trim_right-trim_cons :
    (c : Char) (s : String) → trim_right s ≡ s → trim_right (trim_cons c s) ≡ trim_cons c s
unfolding trim_right
trim_right-trim_cons c String.[] h = elim (Bool-cases (is_space (code c))) [
  | inl e ↦ rw e
  | inr e ↦ rw (e, trim_cons) (rw e)
]
trim_right-trim_cons c (String.◌∷◌ d s) h = λ i. trim_cons c (h i)

trim_right_idem : (s : String) → trim_right (trim_right s) ≡ trim_right s
unfolding trim_right
trim_right_idem String.[] = refl
trim_right_idem (String.◌∷◌ c s) = trim_right-trim_cons c (trim_right s) (trim_right_idem s)

abbrev StartsDark : String → Type 0
StartsDark String.[] = Unit
StartsDark (String.◌∷◌ c s) = is_space (code c) ≡ false

trim_left-StartsDark : (s : String) → StartsDark (trim_left s)
unfolding trim_left
trim_left-StartsDark String.[] = tt
trim_left-StartsDark (String.◌∷◌ c s) = ground (arith, trim_left-StartsDark s)

trim_cons-StartsDark :
    (c : Char) (s : String) → is_space (code c) ≡ false → StartsDark (trim_cons c s)
unfolding trim_cons
trim_cons-StartsDark c String.[] h = ground arith
trim_cons-StartsDark c (String.◌∷◌ d s) h = h

trim_right-StartsDark : (s : String) → StartsDark s → StartsDark (trim_right s)
unfolding trim_right
trim_right-StartsDark String.[] h = tt
trim_right-StartsDark (String.◌∷◌ c s) h = trim_cons-StartsDark c (trim_right s) h

trim_left_dark : (s : String) → StartsDark s → trim_left s ≡ s
unfolding trim_left
trim_left_dark String.[] h = refl
trim_left_dark (String.◌∷◌ c s) h = rw h

-- Trimming a trimmed text changes nothing.
pub trim_space_idem : (s : String) → trim_space (trim_space s) ≡ trim_space s
unfolding trim_space
trim_space_idem s =
    rw
      (trim_left_dark (trim_space s) (trim_right-StartsDark (trim_left s) (trim_left-StartsDark s)))
      (trim_right_idem (trim_left s))

-- What strings.ToLower makes of one character, as far as a comparison with an ASCII text can see:
-- it is exact on ASCII, and U+0130 and U+212A are the only others with an ASCII lower case.
pub lower_code : ℕ → ℕ
lower_code c =
    if leb 65 c && leb c 90
    then c + 32
    else if eqb c 0x130
    then 105
    else if eqb c 0x212A
    then 107
    else c

-- strings.ToLower, as the characters of the result.
unfoldable pub to_lower : String → List ℕ
unfolding lower_code
to_lower String.[] = []
to_lower (String.◌∷◌ c s) = lower_code (code c) ∷ to_lower s

-- Equality of two such results.
abbrev pub codes_eq : List ℕ → List ℕ → Bool
codes_eq [] [] = true
codes_eq [] (d ∷ t) = false
codes_eq (c ∷ s) [] = false
codes_eq (c ∷ s) (d ∷ t) = eqb c d && codes_eq s t

-- `strings.HasPrefix` and `strings.TrimPrefix` in one: the rest after the prefix, if it is there.
unfoldable pub strip_prefix : String → String → Option String
strip_prefix String.[] s = some s
strip_prefix (String.◌∷◌ c p) String.[] = none
strip_prefix (String.◌∷◌ c p) (String.◌∷◌ d s) =
    if eqb (code c) (code d) then strip_prefix p s else none

-- Every character of a text passes a test on its code point.
abbrev pub all_codes : (ℕ → Bool) → String → Bool
all_codes p String.[] = true
all_codes p (String.◌∷◌ c s) = p (code c) && all_codes p s

trimmed : trim_space " \t api-v1 \n" ≡ "api-v1"
unfolding trim_space
trimmed = refl

lowered : codes_eq (to_lower "PROD") (to_lower "prod") ≡ true
unfolding to_lower
lowered = refl

stripped : strip_prefix "Bearer " "Bearer abc" ≡ some "abc"
unfolding strip_prefix
stripped = refl
