-- ===== src/Graph/Steps.antt =====
-- internal/usecase/dependencygraph/service.go, resolveDependencies: one reference.
use proto_radar.Prelude.{
  ◌==◌, ◌≡◌, refl, sym, ap, ◌∙◌, false, some, List, [], ◌∷◌, mem_text, inl, inr, Bool-cases,
  if◌then◌else◌,
}
use proto_radar.Domain.Dependencies.{UnresolvedDependencyReason}
use proto_radar.Store.World.{done}
use proto_radar.Store.Triples.{holds_then, holds_random_hex}
use proto_radar.Graph.Providers.{ProviderRef, ProviderIndex}
use proto_radar.Graph.Resolving.{
  Consumer, Reference, Step, resolve_matches, add_dependency, add_unresolved, edge_key,
}
use proto_radar.Graph.References.{ignored, matches, reason_of, package_of, missing_reason}
use proto_radar.Graph.Progress.{IsProgress-none, Resolves}
use proto_radar.Graph.Additions.{
  with_dependency-IsKeyed, with_dependency-IsProgress, with_unresolved-IsProgress,
}

module _ (consumer : Consumer) (index : ProviderIndex) (r : Reference) where
  -- A step that takes one id.
  unresolved-Resolves :
      (reason : UnresolvedDependencyReason)
      → ignored index r ≡ false
      → missing_reason (matches index r) ≡ some reason
      → Resolves consumer index (r ∷ []) (add_unresolved consumer r (package_of r) reason)
  unfolding add_unresolved
  unresolved-Resolves reason considered missing before s keyed = holds_then holds_random_hex (λ id.
      record {
        runs = λ w e. (
          e,
          with_unresolved-IsProgress consumer index r reason id s considered missing,
          record { keyed = keyed.keyed; distinct = keyed.distinct },
        );
      })

  dependency-Resolves :
      (p : ProviderRef)
      → ignored index r ≡ false
      → matches index r ≡ p ∷ []
      → Resolves consumer index (r ∷ []) (add_dependency consumer p (reason_of r) r (package_of r))
  unfolding add_dependency
  dependency-Resolves p considered only before s keyed =
      elim (Bool-cases (p.module_id == consumer.consumed_by.id)) [
        | inl own ↦ rw own (record {
          runs = λ w e. (
            e,
            IsProgress-none consumer index (r ∷ []) s (inr (inr (p, only, inl own)), tt),
            keyed,
          );
        })
        | inr other ↦ elim (Bool-cases (mem_text (edge_key consumer p r) s.seen)) [
          | inl known ↦
              rw (other, known)
                (record {
                  runs = λ w e. (
                    e,
                    IsProgress-none consumer index (r ∷ []) s (
                      inr (inr (p, only, inr (sym (keyed.keyed (edge_key consumer p r)) ∙ known))),
                      tt,
                    ),
                    keyed,
                  );
                })
          | inr new ↦
              rw (other, new)
                (holds_then holds_random_hex (λ id. record {
                  runs = λ w e. (
                    e,
                    with_dependency-IsProgress consumer index r p id s considered only other,
                    with_dependency-IsKeyed consumer index r p id s keyed new,
                  );
                }))
        ]
      ]

  matches-Resolves :
      (ms : List ProviderRef)
      → matches index r ≡ ms
      → ignored index r ≡ false
      → Resolves consumer index
          (r ∷ [])
          (resolve_matches consumer ms (reason_of r) r (package_of r))
  unfolding resolve_matches
  matches-Resolves [] m considered =
      unresolved-Resolves UnresolvedDependencyReason.provider_not_found considered
        (ap missing_reason m)
  matches-Resolves (p ∷ []) m considered = dependency-Resolves p considered m
  matches-Resolves (p ∷ q ∷ rest) m considered =
      unresolved-Resolves UnresolvedDependencyReason.ambiguous_provider considered
        (ap missing_reason m)

  -- One reference, as the code takes it.
  abbrev pub resolve_one : Step
  resolve_one s =
      if ignored index r
      then done s
      else resolve_matches consumer (matches index r) (reason_of r) r (package_of r) s

  pub resolve_one-Resolves : Resolves consumer index (r ∷ []) resolve_one
  resolve_one-Resolves before s keyed = elim (Bool-cases (ignored index r)) [
    | inl skip ↦ rw skip (record {
      runs = λ w e. (e, IsProgress-none consumer index (r ∷ []) s (inl skip, tt), keyed);
    })
    | inr considered ↦
        rw considered (matches-Resolves (matches index r) refl considered before s keyed)
  ]
