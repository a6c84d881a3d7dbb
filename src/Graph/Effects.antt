-- ===== src/Graph/Effects.antt =====
-- internal/usecase/dependencygraph/service.go: a rebuild as a whole.
use Prim.Native.String.{◌++◌ as append}
use proto_radar.Prelude.{
  Among, All-imp, String, ◌==◌, ◌≡◌, ◌≢◌, refl, sym, subst, true, false, List, [], ◌∷◌, any, All,
  inl, inr, arith, Bool-cases,
}
use proto_radar.Domain.Errors.{Err, ok, err}
use proto_radar.Domain.Records.{Time, Module}
use proto_radar.Domain.Versions.{ModuleVersion}
use proto_radar.Domain.Dependencies.{ModuleDependency, UnresolvedProtoDependency}
use proto_radar.Outbox.Record.{Record, Event}
use proto_radar.Outbox.Table.{Table, create}
use proto_radar.Store.Db.{Db, Platform}
use proto_radar.Store.World.{World, ◌>>◌, done, within_transaction}
use proto_radar.Store.Triples.{
  Holds, Keeps, holds_then, holds_imp, holds_within_transaction, Keeps-lift, Keeps-query,
  Keeps-require, Keeps-done, outcome_ok, outcome_err,
}
use proto_radar.Store.Triples.Lookups.{holds_from}
use proto_radar.Store.Triples.Outbox.{IsWrittenEvent, write_event-IsWrittenEvent}
use proto_radar.Store.Modules.{get_module_by_id, get_module_by_name}
use proto_radar.Store.Versions.{get_version_by_id, get_version, list_latest_published}
use proto_radar.Store.Dependencies.Replaced.{IsReplaced, replace_by_consumer-IsReplaced}
use proto_radar.Events.Runtime.{new_module_dependencies_updated}
use proto_radar.Graph.Providers.{ProviderIndex}
use proto_radar.Graph.Resolving.{Consumer, Reference, Resolution}
use proto_radar.Graph.References.{IsDependencyOf, IsUnresolvedOf}
use proto_radar.Graph.Progress.{IsProgress}
use proto_radar.Graph.Resolved.{start, resolve_dependencies-IsProgress}
use proto_radar.Graph.Rebuild.{
  MetadataStore, RebuildInput, RebuildOutput, resolve_module, resolve_module_version,
  build_provider_index, updated_event, consumer_of, rebuilt, store_resolved_dependencies,
  rebuild_module_version_dependencies,
}

module _ (P : Db → Type 0) (platform : Platform) (input : RebuildInput) where
  resolve_module-Keeps : Keeps P (resolve_module platform input)
  unfolding resolve_module get_module_by_id get_module_by_name
  resolve_module-Keeps = elim (Bool-cases (input.module_id == "")) [
    | inl unnamed ↦ rw unnamed (holds_then (Keeps-lift _) (λ name. Keeps-query _))
    | inr named ↦ rw named (Keeps-query _)
  ]

  resolve_module_version-Keeps :
      (module_id : String) → Keeps P (resolve_module_version platform module_id input)
  unfolding resolve_module_version get_version_by_id get_version
  resolve_module_version-Keeps module_id = elim (Bool-cases (input.module_version_id == "")) [
    | inl unnamed ↦ rw unnamed (holds_then (Keeps-lift _) (λ version. Keeps-query _))
    | inr named ↦
        rw named (
          holds_then (Keeps-query _)
            (λ version. holds_then (Keeps-require _ _) (λ _. Keeps-done _)))
  ]

build_provider_index-Keeps :
    (store : MetadataStore) (before : Db) (id : String)
    → Keeps (λ db. db ≡ before) (build_provider_index store id)
unfolding build_provider_index list_latest_published
build_provider_index-Keeps store before id = holds_then (Keeps-query _) (λ latest.
    holds_then (store.reads_files before _)
      (λ files. holds_then (store.reads_symbols before _) (λ symbols. Keeps-done _)))

module _ (consumer : Consumer) (index : ProviderIndex) where
  dependency_own :
      (refs : List Reference) (d : ModuleDependency)
      → Among (IsDependencyOf consumer index d) refs
      → d.consumer_module_version_id ≡ consumer.version.id
  dependency_own [] d h = absurd h
  dependency_own (r ∷ refs) d (inl h) = h.consumer_module_version_id
  dependency_own (r ∷ refs) d (inr h) = dependency_own refs d h

  unresolved_own :
      (refs : List Reference) (d : UnresolvedProtoDependency)
      → Among (IsUnresolvedOf consumer index d) refs
      → d.module_version_id ≡ consumer.version.id
  unresolved_own [] d h = absurd h
  unresolved_own (r ∷ refs) d (inl h) = h.module_version_id
  unresolved_own (r ∷ refs) d (inr h) = unresolved_own refs d h

module _ (consumer : Consumer) (index : ProviderIndex) (refs : List Reference) (t : Resolution)
    (progress : IsProgress consumer index refs start t) where
  dependencies_own :
      All
        (λ (d : ModuleDependency). d.consumer_module_version_id ≡ consumer.version.id)
        t.dependencies
  dependencies_own =
      subst (All _) (sym progress.more_dependencies)
        (All-imp _ _ (dependency_own consumer index refs) progress.dependencies progress.sound)

  unresolved_all_own :
      All
        (λ (d : UnresolvedProtoDependency). d.module_version_id ≡ consumer.version.id)
        t.unresolved
  unresolved_all_own = subst (All _) (sym progress.more_unresolved) (
      All-imp _ _ (unresolved_own consumer index refs) progress.unresolved
        progress.sound_unresolved)

-- What a rebuild leaves: the rows of the version replaced, the event written, and nothing else changed.
pub record IsRebuilt (platform : Platform) (wall clock at : Time) (before : Db)
    (output : RebuildOutput) (after : Db) : Type 0 where
  pub between : Db
  pub of_version :
      All
        (λ (d : ModuleDependency). d.consumer_module_version_id ≡ output.version.id)
        output.dependencies
  pub unresolved_of_version :
      All
        (λ (d : UnresolvedProtoDependency). d.module_version_id ≡ output.version.id)
        output.unresolved
  pub replaced :
      IsReplaced platform wall output.version.id output.dependencies output.unresolved before
        between
  pub written :
      IsWrittenEvent wall
        (new_module_dependencies_updated platform (
          updated_event
            (consumer_of output.updated output.version clock)
            output.dependencies
            output.unresolved
            at))
        between
        after

module _ (platform : Platform) (wall clock at : Time) (found : Module) (version : ModuleVersion)
    (t : Resolution) (before : Db) where
  stored :
      All (λ (d : ModuleDependency). d.consumer_module_version_id ≡ version.id) t.dependencies
      → All (λ (d : UnresolvedProtoDependency). d.module_version_id ≡ version.id) t.unresolved
      → Holds
          (λ db. db ≡ before)
          (store_resolved_dependencies platform wall at true (consumer_of found version clock) t)
          (λ _. IsRebuilt platform wall clock at before (rebuilt found version t))
          (λ _. Unit)
  unfolding store_resolved_dependencies
  stored own own_unresolved =
      holds_then
        (replace_by_consumer-IsReplaced platform wall version.id t.dependencies t.unresolved before)
        (λ _. holds_from (λ between replaced.
          holds_imp (λ db e. e)
            (λ _ after written. record {
              between = between;
              of_version = own;
              unresolved_of_version = own_unresolved;
              replaced = replaced;
              written = written;
            })
            (λ db e. e) (write_event-IsWrittenEvent wall _ between)))

known_refused :
    (id : String) (now : Time) (event : Event) (table after : Table)
    → any (λ (r : Record). r.dedup_key == event.dedup_key) table ≡ true
    → create id now event table ≢ ok after
unfolding create
known_refused id now event table after known h = ground (arith, known, h)

-- The key of the event of a rebuild.
abbrev pub event_key : RebuildOutput → String
event_key output = append "module:" (
    append output.updated.id
      (append ":version:" (append output.version.version ":dependencies-updated")))

module _ (store : MetadataStore) (platform : Platform) (wall clock at : Time)
    (input : RebuildInput) where
  stored_rebuilt :
      (found : Module) (version : ModuleVersion) (t : Resolution) (before : Db)
      → All (λ (d : ModuleDependency). d.consumer_module_version_id ≡ version.id) t.dependencies
      → All (λ (d : UnresolvedProtoDependency). d.module_version_id ≡ version.id) t.unresolved
      → Holds
          (λ db. db ≡ before)
          (within_transaction false (λ in_tx.
              store_resolved_dependencies platform wall at in_tx
                (consumer_of found version clock)
                t)
            >> done (rebuilt found version t))
          (IsRebuilt platform wall clock at before)
          (λ db. db ≡ before)
  stored_rebuilt found version t before own own_unresolved =
      holds_then
        (holds_within_transaction _
          (stored platform wall clock at found version t before own own_unresolved))
        (λ _. record { runs = λ w h. h })

  rebuild-IsRebuilt :
      (before : Db)
      → Holds
          (λ db. db ≡ before)
          (rebuild_module_version_dependencies store platform wall clock at input)
          (IsRebuilt platform wall clock at before)
          (λ db. db ≡ before)
  unfolding rebuild_module_version_dependencies
  rebuild-IsRebuilt before =
      holds_then (resolve_module-Keeps (λ db. db ≡ before) platform input) (λ found.
        holds_then (resolve_module_version-Keeps (λ db. db ≡ before) platform input found.id)
          (λ version. holds_then (store.reads_metadata before version.id) (λ metadata.
            holds_then (build_provider_index-Keeps store before found.id) (λ index.
              holds_then
                (resolve_dependencies-IsProgress (consumer_of found version clock) metadata index
                  before)
                (λ t. record {
                  runs = λ w (e, progress, keyed).
                      (stored_rebuilt found version t before
                          (dependencies_own (consumer_of found version clock) _ _ t progress)
                          (unresolved_all_own (consumer_of found version clock) _ _ t
                            progress)).runs
                        w e;
                })))))

  module _ (w : World) where
    -- If the repositories of descriptor metadata only read, a rebuild that succeeds leaves for its version
    -- the rows of exactly the dependencies and the unresolved entries that it returns, in their order and
    -- column by column, none of them an edge of a module to itself; the rows of other versions stay, the
    -- event with the counts stands in the outbox, and nothing else changed.
    pub rebuild_effect :
        (output : RebuildOutput)
        → (rebuild_module_version_dependencies store platform wall clock at input w).0 ≡ ok output
        → IsRebuilt platform wall clock at w.db output
            (rebuild_module_version_dependencies store platform wall clock at input w).1.db
    rebuild_effect output h =
        outcome_ok (IsRebuilt platform wall clock at w.db) (λ db. db ≡ w.db)
          (rebuild_module_version_dependencies store platform wall clock at input w) output
          ((rebuild-IsRebuilt w.db).runs w refl) h

    -- If the repositories of descriptor metadata only read, a rebuild that returns an error, whatever
    -- failed, leaves the whole database as it was.
    pub rebuild_error :
        (e : Err)
        → (rebuild_module_version_dependencies store platform wall clock at input w).0 ≡ err e
        → (rebuild_module_version_dependencies store platform wall clock at input w).1.db ≡ w.db
    rebuild_error e h =
        outcome_err (IsRebuilt platform wall clock at w.db) (λ db. db ≡ w.db)
          (rebuild_module_version_dependencies store platform wall clock at input w) e
          ((rebuild-IsRebuilt w.db).runs w refl) h

    -- If the repositories of descriptor metadata only read, a rebuild never returns a module and a version
    -- whose event is already in the outbox, under the key made of the two.
    pub rebuild_once :
        (output : RebuildOutput)
        → any (λ (r : Record). r.dedup_key == event_key output) w.db.outbox ≡ true
        → (rebuild_module_version_dependencies store platform wall clock at input w).0 ≢ ok output
    unfolding new_module_dependencies_updated
    rebuild_once output known h =
        let all = rebuild_effect output h in
        known_refused all.written.id wall
          (new_module_dependencies_updated platform (
            updated_event (consumer_of output.updated output.version clock) output.dependencies
              output.unresolved at))
          all.between.outbox all.written.outbox
          (subst
            (λ (db : Db). any (λ (r : Record). r.dedup_key == event_key output) db.outbox ≡ true)
            (sym all.replaced.is_after) known)
          all.written.created
