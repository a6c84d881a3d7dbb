-- ===== src/Graph/Coverage.antt =====
-- internal/usecase/dependencygraph/service.go, resolveDependencies: what the key of a dependency, its parts
-- joined by NUL, says of the dependency.
use Prim.Native.String.{◌++◌ as append}
use text.Mathlib.TextEquality.{eq_iff}
use proto_radar.Prelude.{
  Among, String, ◌==◌, ◌≡◌, refl, sym, ap, ◌∙◌, Bool, true, ◌&&◌, ◌⊎◌, List, [], ◌∷◌, any, all, All,
  inl, inr, arith, ltb, all_codes, Bool-cases,
}
use proto_radar.Prelude.Separators.{append_separator_inj, append_left_inj, separated}
use proto_radar.Domain.Dependencies.{DependencySource, dependency_source_text, ModuleDependency}
use proto_radar.Graph.Providers.{ProviderRef, ProviderIndex}
use proto_radar.Graph.Resolving.{Consumer, Reference, Resolution, dependency_key, edge_key}
use proto_radar.Graph.References.{IsDependencyOf, IsCovered, ignored, key_of, matches, names}

abbrev pub no_nul : String → Bool
no_nul s = all_codes (λ c. ltb 0 c) s

-- No NUL in the import path of a reference and in the version ids of its providers.
abbrev pub IsPlain : ProviderIndex → Reference → Type 0
IsPlain index r =
    (no_nul r.import_path ≡ true)
    × (all (λ (p : ProviderRef). no_nul p.module_version_id) (matches index r) ≡ true)

-- A dependency on the version of the provider, with the columns of the reference.
abbrev pub answers : ProviderRef → Reference → ModuleDependency → Bool
answers p r d =
    d.provider_module_version_id == p.module_version_id
    && dependency_source_text d.source == dependency_source_text r.source
    && d.import_path == r.import_path
    && d.referenced_symbol == r.referenced_symbol

-- A reference is accounted for: it does not count, it is listed as unresolved, its one provider is the
-- consumer's module, or there is a dependency on the provider with the columns of the reference.
abbrev pub IsAccounted : Consumer → ProviderIndex → Resolution → Reference → Type 0
IsAccounted consumer index s r =
    (ignored index r ≡ true)
    ⊎ (any (names r) s.unresolved ≡ true)
    ⊎ ((p : ProviderRef) × (matches index r ≡ p ∷ [])
        × (((p.module_id == consumer.consumed_by.id) ≡ true)
            ⊎ (any (answers p r) s.dependencies ≡ true)))

nul_inj :
    (a b x y : String)
    → no_nul a ≡ true
    → no_nul b ≡ true
    → append a (append "\0" x) ≡ append b (append "\0" y)
    → (a ≡ b) × (x ≡ y)
nul_inj a b x y h k e =
    append_separator_inj (λ c. ltb 0 c) _ a b x y refl h k
      (ap (append a) (sym (separated _ x)) ∙ (e ∙ ap (append b) (separated _ y)))

source_plain : (s : DependencySource) → no_nul (dependency_source_text s) ≡ true
source_plain DependencySource.from_import = refl
source_plain DependencySource.type_reference = refl
source_plain DependencySource.method_reference = refl
source_plain DependencySource.package_fallback = refl

head_inj : (c x y : String) → append c (append "\0" x) ≡ append c (append "\0" y) → x ≡ y
head_inj c x y e = append_left_inj "\0" x y (append_left_inj c (append "\0" x) (append "\0" y) e)

-- The parts of a key whose versions and import paths have no NUL.
key_parts :
    (c v v' : String) (s s' : DependencySource) (i i' n n' : String)
    → no_nul v ≡ true
    → no_nul v' ≡ true
    → no_nul i ≡ true
    → no_nul i' ≡ true
    → dependency_key c v s i n ≡ dependency_key c v' s' i' n'
    → (v ≡ v') × (dependency_source_text s ≡ dependency_source_text s') × (i ≡ i') × (n ≡ n')
unfolding dependency_key
key_parts c v v' s s' i i' n n' hv hv' hi hi' e =
    let (version, e1) = nul_inj v v' _ _ hv hv' (head_inj c _ _ e) in
    let (source, e2) =
      nul_inj (dependency_source_text s) (dependency_source_text s') _ _ (source_plain s)
        (source_plain s') e1 in
    let (path, symbol) = nul_inj i i' n n' hi hi' e2 in (version, source, path, symbol)

module _ (consumer : Consumer) (index : ProviderIndex) where
  -- The version and the import path of a dependency of plain references.
  plain_dependency :
      (refs : List Reference) (d : ModuleDependency)
      → All (IsPlain index) refs
      → Among (IsDependencyOf consumer index d) refs
      → (d.consumer_module_version_id ≡ consumer.version.id)
        × (no_nul d.provider_module_version_id ≡ true)
        × (no_nul d.import_path ≡ true)
  plain_dependency [] d plain h = absurd h
  plain_dependency (r ∷ refs) d plain (inl h) = (
    h.consumer_module_version_id,
    ap no_nul h.provider_module_version_id
        ∙ ground (
          arith,
          ap (all (λ (p : ProviderRef). no_nul p.module_version_id)) h.only_match,
          plain.0.1,
        ),
    ap no_nul h.import_path ∙ plain.0.0,
  )
  plain_dependency (r ∷ refs) d plain (inr h) = plain_dependency refs d plain.1 h

  keyed_answers :
      (refs : List Reference) (p : ProviderRef) (r : Reference) (d : ModuleDependency)
      → All (IsPlain index) refs
      → no_nul p.module_version_id ≡ true
      → no_nul r.import_path ≡ true
      → Among (IsDependencyOf consumer index d) refs
      → (key_of d == edge_key consumer p r) ≡ true
      → answers p r d ≡ true
  unfolding edge_key
  keyed_answers refs p r d plain hp hr from e =
      let (own, version, path) = plain_dependency refs d plain from in
      let same : key_of d ≡ edge_key consumer p r =
        ground (arith, e, eq_iff (key_of d) (edge_key consumer p r)) in
      let (v, s, i, n) =
        key_parts consumer.version.id d.provider_module_version_id p.module_version_id d.source
          r.source d.import_path r.import_path d.referenced_symbol r.referenced_symbol version hp
          path hr
          (ap
              (λ c.
                dependency_key c d.provider_module_version_id d.source d.import_path
                  d.referenced_symbol)
              (sym own)
            ∙ same) in
      ground (
        arith,
        v,
        s,
        i,
        n,
        eq_iff d.provider_module_version_id p.module_version_id,
        eq_iff (dependency_source_text d.source) (dependency_source_text r.source),
        eq_iff d.import_path r.import_path,
        eq_iff d.referenced_symbol r.referenced_symbol,
      )

  some_answers :
      (refs : List Reference) (p : ProviderRef) (r : Reference) (deps : List ModuleDependency)
      → All (IsPlain index) refs
      → no_nul p.module_version_id ≡ true
      → no_nul r.import_path ≡ true
      → All (λ d. Among (IsDependencyOf consumer index d) refs) deps
      → any (λ d. key_of d == edge_key consumer p r) deps ≡ true
      → any (answers p r) deps ≡ true
  some_answers refs p r [] plain hp hr from h = h
  some_answers refs p r (d ∷ deps) plain hp hr from h =
      elim (Bool-cases (key_of d == edge_key consumer p r)) [
        | inl same ↦ ground (arith, keyed_answers refs p r d plain hp hr from.0 same)
        | inr other ↦
            ground (arith, some_answers refs p r deps plain hp hr from.1 (ground (arith, h, other)))
      ]

  -- What is accounted for by keys is so by columns.
  pub covered-IsAccounted :
      (refs : List Reference) (s : Resolution) (r : Reference)
      → All (IsPlain index) refs
      → All (λ d. Among (IsDependencyOf consumer index d) refs) s.dependencies
      → IsPlain index r
      → IsCovered consumer index s r
      → IsAccounted consumer index s r
  covered-IsAccounted refs s r plain from own (inl h) = inl h
  covered-IsAccounted refs s r plain from own (inr (inl h)) = inr (inl h)
  covered-IsAccounted refs s r plain from own (inr (inr (p, m, inl h))) = inr (inr (p, m, inl h))
  covered-IsAccounted refs s r plain from own (inr (inr (p, m, inr h))) = inr (
      inr (
        p,
        m,
        inr (
            some_answers refs p r s.dependencies plain
              (ground (arith, ap (all (λ (p : ProviderRef). no_nul p.module_version_id)) m, own.1))
              own.0 from h),
      ))

  pub all_covered-IsAccounted :
      (all_refs refs : List Reference) (s : Resolution)
      → All (IsPlain index) all_refs
      → All (λ d. Among (IsDependencyOf consumer index d) all_refs) s.dependencies
      → All (IsPlain index) refs
      → All (IsCovered consumer index s) refs
      → All (IsAccounted consumer index s) refs
  all_covered-IsAccounted all_refs [] s plain from own h = tt
  all_covered-IsAccounted all_refs (r ∷ refs) s plain from own h = (
    covered-IsAccounted all_refs s r plain from own.0 h.0,
    all_covered-IsAccounted all_refs refs s plain from own.1 h.1,
  )
