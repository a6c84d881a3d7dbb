-- ===== src/Prelude/Separators.antt =====
-- Texts joined by a separator that does not occur in them.
use Prim.Native.Nat.{ℕ}
use Prim.Native.Char.{Char, code}
use Prim.Native.String.{String, ◌++◌ as append}
use text.Mathlib.TextLemmas.{nil-append, cons-append}
use mathlib.Core.Path.{◌≡◌, refl, sym, ap, ◌∙◌}
use mathlib.Core.Bool.{Bool, true, false}
use native.Mathlib.Omega.{arith}
use proto_radar.Prelude.Text.{all_codes}

abbrev pub head_code : String → ℕ
head_code String.[] = 0
head_code (String.◌∷◌ c s) = code c

abbrev pub tail_text : String → String
tail_text String.[] = ""
tail_text (String.◌∷◌ c s) = s

-- A text before a separator, with what follows it.
pub separated : (n : Char) (x : String) → append (String.◌∷◌ n "") x ≡ String.◌∷◌ n x
separated n x = cons-append n "" x ∙ ap (String.◌∷◌ n) (nil-append x)

-- Two texts without the separator are told apart by what stands before the first one.
pub append_separator_inj :
    (p : ℕ → Bool) (n : Char) (a b x y : String)
    → p (code n) ≡ false
    → all_codes p a ≡ true
    → all_codes p b ≡ true
    → append a (String.◌∷◌ n x) ≡ append b (String.◌∷◌ n y)
    → (a ≡ b) × (x ≡ y)
append_separator_inj p n String.[] String.[] x y t h k e =
    (refl, ap tail_text (sym (nil-append _) ∙ (e ∙ nil-append _)))
append_separator_inj p n String.[] (String.◌∷◌ d b) x y t h k e =
    let z : code n ≡ code d =
      ap head_code (sym (nil-append (String.◌∷◌ n x)) ∙ (e ∙ cons-append d b (String.◌∷◌ n y))) in
    ground (arith, z)
append_separator_inj p n (String.◌∷◌ c a) String.[] x y t h k e =
    let z : code c ≡ code n =
      ap head_code (sym (cons-append c a (String.◌∷◌ n x)) ∙ (e ∙ nil-append (String.◌∷◌ n y))) in
    ground (arith, z)
append_separator_inj p n (String.◌∷◌ c a) (String.◌∷◌ d b) x y t h k e =
    let e' : String.◌∷◌ c (append a (String.◌∷◌ n x)) ≡ String.◌∷◌ d (append b (String.◌∷◌ n y)) =
      sym (cons-append c a (String.◌∷◌ n x)) ∙ (e ∙ cons-append d b (String.◌∷◌ n y)) in
    let (same, rest) =
      append_separator_inj p n a b x y t (ground arith) (ground arith) (ap tail_text e') in
    (cc, rest)

-- Texts with the same beginning are told apart by what follows it.
pub append_left_inj : (a x y : String) → append a x ≡ append a y → x ≡ y
append_left_inj String.[] x y e = sym (nil-append x) ∙ (e ∙ nil-append y)
append_left_inj (String.◌∷◌ c a) x y e =
    append_left_inj a x y (ap tail_text (sym (cons-append c a x) ∙ (e ∙ cons-append c a y)))
