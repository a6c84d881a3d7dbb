-- ===== src/Graph/Additions.antt =====
-- internal/usecase/dependencygraph/service.go, resolveDependencies: what one reference adds.
use text.Mathlib.TextEquality.{eq_iff}
use proto_radar.Prelude.{
  append_nil, String, ◌==◌, ◌≡◌, refl, sym, ap, ◌∙◌, subst, true, false, some, [], ◌∷◌, ◌++◌, any,
  mem_text, any-append, Distinct-map-concat, inl, inr, arith,
}
use proto_radar.Domain.Dependencies.{UnresolvedDependencyReason, dependency_source_text}
use proto_radar.Graph.Providers.{ProviderRef, ProviderIndex}
use proto_radar.Graph.Resolving.{
  Consumer, Reference, Resolution, edge_key, dependency_of, unresolved_of,
}
use proto_radar.Graph.References.{
  ignored, matches, reason_of, package_of, key_of, names, missing_reason,
}
use proto_radar.Graph.Progress.{IsKeyed, IsProgress}

module _ (consumer : Consumer) (index : ProviderIndex) (r : Reference) where
  abbrev pub with_dependency : ProviderRef → String → Resolution → Resolution
  with_dependency p id s = record {
    dependencies =
        s.dependencies ++ dependency_of consumer p (reason_of r) r (package_of r) id ∷ [];
    unresolved = s.unresolved;
    seen = edge_key consumer p r ∷ s.seen;
  }

  key_of-dependency_of :
      (p : ProviderRef) (id : String)
      → key_of (dependency_of consumer p (reason_of r) r (package_of r) id) ≡ edge_key consumer p r
  unfolding dependency_of edge_key
  key_of-dependency_of p id = refl

  pub with_dependency-IsKeyed :
      (p : ProviderRef) (id : String) (s : Resolution)
      → IsKeyed s
      → mem_text (edge_key consumer p r) s.seen ≡ false
      → IsKeyed (with_dependency p id s)
  with_dependency-IsKeyed p id s keyed new = record {
    keyed = λ k. ground (
      arith,
      any-append (λ d. key_of d == k) s.dependencies
          (dependency_of consumer p (reason_of r) r (package_of r) id ∷ []),
      key_of-dependency_of p id,
      keyed.keyed k,
    );
    distinct =
        Distinct-map-concat key_of s.dependencies
          (dependency_of consumer p (reason_of r) r (package_of r) id) keyed.distinct
          (subst (λ k. any (λ d. key_of d == k) s.dependencies ≡ false)
            (sym (key_of-dependency_of p id)) (sym (keyed.keyed (edge_key consumer p r)) ∙ new));
  }

  pub with_dependency-IsProgress :
      (p : ProviderRef) (id : String) (s : Resolution)
      → ignored index r ≡ false
      → matches index r ≡ p ∷ []
      → (p.module_id == consumer.consumed_by.id) ≡ false
      → IsProgress consumer index (r ∷ []) s (with_dependency p id s)
  unfolding dependency_of
  with_dependency-IsProgress p id s considered only other = record {
    dependencies = dependency_of consumer p (reason_of r) r (package_of r) id ∷ [];
    unresolved = [];
    more_dependencies = refl;
    more_unresolved = sym (append_nil s.unresolved);
    sound = (
      inl (record {
        considered = considered;
        provider = p;
        only_match = only;
        of_another = other;
        consumer_module_id = refl;
        consumer_module_name = refl;
        consumer_module_version_id = refl;
        consumer_version = refl;
        provider_module_id = refl;
        provider_module_name = refl;
        provider_module_version_id = refl;
        provider_version = refl;
        source = refl;
        reason = refl;
        import_path = refl;
        referenced_package = refl;
        referenced_symbol = refl;
        created_at = refl;
      }),
      tt,
    );
    sound_unresolved = tt;
    covered = (
      inr (
          inr (
            p,
            only,
            inr (
                ground (
                  arith,
                  any-append (λ d. key_of d == edge_key consumer p r) s.dependencies
                      (dependency_of consumer p (reason_of r) r (package_of r) id ∷ []),
                  ap (λ k. k == edge_key consumer p r) (key_of-dependency_of p id),
                  (eq_iff (edge_key consumer p r) (edge_key consumer p r)).1 refl,
                )),
          )),
      tt,
    );
  }

  names-unresolved_of :
      (reason : UnresolvedDependencyReason) (id : String)
      → names r (unresolved_of consumer r (package_of r) reason id) ≡ true
  unfolding unresolved_of
  names-unresolved_of reason id = ground (
    arith,
    (eq_iff (dependency_source_text r.source) (dependency_source_text r.source)).1 refl,
    (eq_iff r.import_path r.import_path).1 refl,
    (eq_iff r.referenced_symbol r.referenced_symbol).1 refl,
  )

  abbrev pub with_unresolved : UnresolvedDependencyReason → String → Resolution → Resolution
  with_unresolved reason id s = record s {
    unresolved = s.unresolved ++ unresolved_of consumer r (package_of r) reason id ∷ [];
  }

  pub with_unresolved-IsProgress :
      (reason : UnresolvedDependencyReason) (id : String) (s : Resolution)
      → ignored index r ≡ false
      → missing_reason (matches index r) ≡ some reason
      → IsProgress consumer index (r ∷ []) s (with_unresolved reason id s)
  unfolding unresolved_of
  with_unresolved-IsProgress reason id s considered missing = record {
    dependencies = [];
    unresolved = unresolved_of consumer r (package_of r) reason id ∷ [];
    more_dependencies = sym (append_nil s.dependencies);
    more_unresolved = refl;
    sound = tt;
    sound_unresolved = (
      inl (record {
        considered = considered;
        missing = missing;
        module_id = refl;
        module_name = refl;
        module_version_id = refl;
        version = refl;
        source = refl;
        import_path = refl;
        referenced_package = refl;
        referenced_symbol = refl;
        created_at = refl;
      }),
      tt,
    );
    covered = (
      inr (
          inl (
            ground (
              arith,
              any-append (names r) s.unresolved
                  (unresolved_of consumer r (package_of r) reason id ∷ []),
              names-unresolved_of reason id,
            ))),
      tt,
    );
  }
