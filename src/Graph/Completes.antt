-- ===== src/Graph/Completes.antt =====
-- internal/usecase/dependencygraph/service.go, resolveDependencies: when it returns a result.
use proto_radar.Prelude.{
  ℕ, ◌+◌, ◌≤◌, String, ◌==◌, ◌≡◌, refl, ap, ◌∙◌, List, [], ◌∷◌, ◌++◌, length, length-append,
  mem_text, inl, inr, arith, Bool-cases,
}
use proto_radar.Domain.Errors.{Result, ok, err}
use proto_radar.Domain.Metadata.{ProtoFile}
use proto_radar.Store.World.{World, ◌>>=◌, then_on, done, random_hex, hex_on}
use proto_radar.Graph.Providers.{ProviderRef, ProviderIndex, with_self}
use proto_radar.Graph.Resolving.{
  Consumer, Reference, Resolution, Step, resolve_matches, add_dependency, add_unresolved, edge_key,
  resolve_dependencies,
}
use proto_radar.Graph.References.{references, ignored, matches, reason_of, package_of}
use proto_radar.Graph.Steps.{resolve_one}
use proto_radar.Graph.Traversal.{traversal}

-- How many ids the random source still gives before its first error.
abbrev pub ids_left : List (Result String) → ℕ
ids_left [] = 0
ids_left (ok id ∷ rest) = 1 + ids_left rest
ids_left (err e ∷ rest) = 0

-- A step that returns a result if there is an id for each reference, and takes no more than those.
abbrev pub Completes : List Reference → Step → Type 0
Completes refs f =
    (s : Resolution) (w : World) (n : ℕ)
    → length refs + n ≤ ids_left w.random
    → (t : Resolution) × (v : World) × (f s w ≡ (ok t, v)) × (n ≤ ids_left v.random)

hex_ok :
    (answers : List (Result String)) (w : World) (n : ℕ)
    → 1 + n ≤ ids_left answers
    → (id : String) × (v : World) × (hex_on answers w ≡ (ok id, v)) × (n ≤ ids_left v.random)
unfolding hex_on
hex_ok [] w n h = absurd (omega (arith, h))
hex_ok (ok id ∷ rest) w n h = (id, record w { random = rest }, refl, omega (arith, h))
hex_ok (err e ∷ rest) w n h = absurd (omega (arith, h))

skip-Completes : (r : Reference) → Completes (r ∷ []) (λ s. done s)
skip-Completes r s w n h = (s, w, refl, omega (arith, h))

id-Completes :
    (r : Reference) (next : String → Resolution) (w : World) (n : ℕ)
    → length (r ∷ []) + n ≤ ids_left w.random
    → (t : Resolution) × (v : World) × ((random_hex >>= λ id. done (next id)) w ≡ (ok t, v))
      × (n ≤ ids_left v.random)
unfolding ◌>>=◌ random_hex
id-Completes r next w n h =
    let (id, v, e, left) = hex_ok w.random w n (omega (arith, h)) in
    (next id, v, ap (λ o. then_on o (λ id. done (next id))) e, left)

Completes-then :
    (refs more : List Reference) (f g : Step)
    → Completes refs f
    → Completes more g
    → Completes (refs ++ more) (λ s. f s >>= g)
unfolding ◌>>=◌
Completes-then refs more f g h k s w n enough =
    let (t, v, e, left) =
      h s w (length more + n) (omega (arith, length-append refs more, enough)) in
    let (u, x, e', left') = k t v n left in (u, x, ap (λ o. then_on o g) e ∙ e', left')

Completes-done : Completes [] (λ s. done s)
Completes-done s w n h = (s, w, refl, omega (arith, h))

module _ (consumer : Consumer) (index : ProviderIndex) (r : Reference) where
  dependency-Completes :
      (p : ProviderRef)
      → Completes (r ∷ []) (add_dependency consumer p (reason_of r) r (package_of r))
  unfolding add_dependency
  dependency-Completes p s = elim (Bool-cases (p.module_id == consumer.consumed_by.id)) [
    | inl own ↦ rw own (skip-Completes r s)
    | inr other ↦ elim (Bool-cases (mem_text (edge_key consumer p r) s.seen)) [
      | inl known ↦ rw (other, known) (skip-Completes r s)
      | inr new ↦ rw (other, new) (id-Completes r _)
    ]
  ]

  matches-Completes :
      (ms : List ProviderRef)
      → Completes (r ∷ []) (resolve_matches consumer ms (reason_of r) r (package_of r))
  unfolding resolve_matches add_unresolved
  matches-Completes [] s = id-Completes r _
  matches-Completes (p ∷ []) s = dependency-Completes p s
  matches-Completes (p ∷ q ∷ rest) s = id-Completes r _

  one-Completes : Completes (r ∷ []) (resolve_one consumer index r)
  one-Completes s = elim (Bool-cases (ignored index r)) [
    | inl skip ↦ rw skip (skip-Completes r s)
    | inr considered ↦ rw considered (matches-Completes (matches index r) s)
  ]

-- If the random source gives at least as many ids as the metadata has references, then a resolution
-- returns a result: it ends, and does not fail.
pub resolve_dependencies_returns :
    (consumer : Consumer) (metadata : List ProtoFile) (index : ProviderIndex) (w : World)
    → length (references metadata) ≤ ids_left w.random
    → (t : Resolution) × ((resolve_dependencies consumer metadata index w).0 ≡ ok t)
unfolding resolve_dependencies
resolve_dependencies_returns consumer metadata index w enough =
    let (t, v, e, left) =
      traversal consumer (with_self metadata index) Completes Completes-done Completes-then
        (one-Completes consumer (with_self metadata index)) metadata _ w 0
        (omega (arith, enough)) in
    (t, ap (λ o. o.0) e)
