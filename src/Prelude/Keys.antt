-- ===== src/Prelude/Keys.antt =====
-- Lists of texts without repetition, as unique indexes keep them.
use mathlib.Core.Path.{◌≡◌, refl}
use mathlib.Core.Bool.{Bool, false}
use mathlib.Core.List.{List, [], ◌∷◌, ◌++◌, map}
use native.Mathlib.Omega.{arith}
use Prim.Native.String.{String}
use text.Mathlib.Text.{◌==◌}
use text.Mathlib.TextEquality.{eq_iff}
use proto_radar.Prelude.Lists.{any, any-append}

abbrev pub mem_text : String → List String → Bool
mem_text k = any λ j. j == k

-- No text of the list comes twice.
abbrev pub Distinct : List String → Type 0
Distinct [] = Unit
Distinct (x ∷ xs) = (mem_text x xs ≡ false) × Distinct xs

pub Distinct-concat :
    (xs : List String) (y : String) → Distinct xs → mem_text y xs ≡ false → Distinct (xs ++ y ∷ [])
Distinct-concat [] y d h = (refl, tt)
Distinct-concat (x ∷ xs) y d h = (
  ground (arith, any-append (λ j. j == x) xs (y ∷ []), eq_iff x y, eq_iff y x),
  Distinct-concat xs y d.1 (ground arith),
)

-- The keys of the elements of a list, and a search for one of them.
pub mem_text-map {ℓ} :
    {A : Type ℓ} (f : A → String) (k : String) (xs : List A)
    → mem_text k (map f xs) ≡ any (λ x. f x == k) xs
mem_text-map f k [] = refl
mem_text-map f k (x ∷ xs) = ground (arith, mem_text-map f k xs)

-- An element with a new key at the end keeps the keys distinct.
pub Distinct-map-concat {ℓ} :
    {A : Type ℓ} (f : A → String) (xs : List A) (y : A)
    → Distinct (map f xs)
    → any (λ x. f x == f y) xs ≡ false
    → Distinct (map f (xs ++ y ∷ []))
Distinct-map-concat f [] y d h = (refl, tt)
Distinct-map-concat f (x ∷ xs) y d h = (
  ground (
    arith,
    mem_text-map f (f x) (xs ++ y ∷ []),
    mem_text-map f (f x) xs,
    any-append (λ z. f z == f x) xs (y ∷ []),
    eq_iff (f x) (f y),
    eq_iff (f y) (f x),
  ),
  Distinct-map-concat f xs y d.1 (ground arith),
)
