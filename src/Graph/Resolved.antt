-- ===== src/Graph/Resolved.antt =====
-- internal/usecase/dependencygraph/service.go, resolveDependencies as a whole.
use proto_radar.Prelude.{Among, ◌≡◌, refl, sym, subst, List, [], map, Distinct, All}
use proto_radar.Domain.Metadata.{ProtoFile}
use proto_radar.Domain.Errors.{ok}
use proto_radar.Store.Db.{Db}
use proto_radar.Store.World.{World}
use proto_radar.Store.Triples.{Holds, outcome_ok}
use proto_radar.Graph.Providers.{ProviderIndex, with_self}
use proto_radar.Graph.Resolving.{Consumer, Resolution, resolve_dependencies}
use proto_radar.Graph.References.{IsDependencyOf, IsUnresolvedOf, key_of, references}
use proto_radar.Graph.Coverage.{IsPlain, IsAccounted, all_covered-IsAccounted}
use proto_radar.Graph.Progress.{IsKeyed, IsProgress, Resolves, Resolves-done, Resolves-then}
use proto_radar.Graph.Steps.{resolve_one-Resolves}
use proto_radar.Graph.Traversal.{traversal}

abbrev pub start : Resolution
start = record { dependencies = []; unresolved = []; seen = [] }

-- The whole resolution, and the database as it was.
pub resolve_dependencies-IsProgress :
    (consumer : Consumer) (metadata : List ProtoFile) (index : ProviderIndex) (before : Db)
    → Holds
        (λ db. db ≡ before)
        (resolve_dependencies consumer metadata index)
        (λ t db.
          (db ≡ before)
          × IsProgress consumer (with_self metadata index) (references metadata) start t
          × IsKeyed t)
        (λ db. db ≡ before)
unfolding resolve_dependencies
resolve_dependencies-IsProgress consumer metadata index before =
    traversal consumer (with_self metadata index) (Resolves consumer (with_self metadata index))
      (Resolves-done consumer (with_self metadata index))
      (Resolves-then consumer (with_self metadata index))
      (resolve_one-Resolves consumer (with_self metadata index)) metadata before start
      (record { keyed = λ k. refl; distinct = tt })

module _ (consumer : Consumer) (metadata : List ProtoFile) (index : ProviderIndex) (w : World)
    (t : Resolution) where
  resolved :
      (resolve_dependencies consumer metadata index w).0 ≡ ok t
      → IsProgress consumer (with_self metadata index) (references metadata) start t × IsKeyed t
  resolved h =
      let (same, progress, keyed) =
        outcome_ok
          (λ t db.
            (db ≡ w.db)
            × IsProgress consumer (with_self metadata index) (references metadata) start t
            × IsKeyed t)
          (λ db. db ≡ w.db) (resolve_dependencies consumer metadata index w) t
          ((resolve_dependencies-IsProgress consumer metadata index w.db).runs w refl) h in
      (progress, keyed)

  -- Every dependency of a resolution comes from a reference of the metadata that is neither well known
  -- nor the consumer's own, has the only provider that the index has for it, which is another module
  -- than the consumer, and its columns say what the reference says. Every unresolved entry comes from
  -- such a reference for which the index has no provider or more than one, as its reason says.
  pub resolve_dependencies_sound :
      (resolve_dependencies consumer metadata index w).0 ≡ ok t
      → All
          (λ d. Among (IsDependencyOf consumer (with_self metadata index) d) (references metadata))
          t.dependencies
        × All
            (λ u.
              Among (IsUnresolvedOf consumer (with_self metadata index) u) (references metadata))
            t.unresolved
  resolve_dependencies_sound h =
      let (progress, keyed) = resolved h in
      (
        subst (All _) (sym progress.more_dependencies) progress.sound,
        subst (All _) (sym progress.more_unresolved) progress.sound_unresolved,
      )

  -- If no import path of a reference and no version id of its providers has a NUL, no reference of the
  -- metadata is lost by a resolution: it is well known or the consumer's own, or it is listed as
  -- unresolved, or its only provider is the consumer's module, or there is a dependency on its only
  -- provider with its source, its import path and its symbol.
  pub resolve_dependencies_complete :
      All (IsPlain (with_self metadata index)) (references metadata)
      → (resolve_dependencies consumer metadata index w).0 ≡ ok t
      → All (IsAccounted consumer (with_self metadata index) t) (references metadata)
  resolve_dependencies_complete plain h =
      all_covered-IsAccounted consumer (with_self metadata index) (references metadata)
        (references metadata) t plain (resolve_dependencies_sound h).0 plain (resolved h).0.covered

  -- The keys of the dependencies of a resolution, made of the versions, the source, the import path and
  -- the symbol, are all different.
  pub resolve_dependencies-Distinct :
      (resolve_dependencies consumer metadata index w).0 ≡ ok t
      → Distinct (map key_of t.dependencies)
  resolve_dependencies-Distinct h = (resolved h).1.distinct
