-- ===== src/Inventory/Resolved.antt =====
-- resolveRuntimeUsage: the drift status against the versions in the registry.
use proto_radar.Prelude.{
  String, ◌==◌, ◌≡◌, refl, sym, ap, ◌∙◌, subst, Bool, true, false, ◌&&◌, ◌||◌, ◌≤◌, Option, none,
  some, List, [], ◌∷◌, any, find, All, All-find, leb, leb→le, Bool-cases, Option-cases, arith,
  eq_refl, inl, inr,
}
use proto_radar.Domain.Errors.{ok}
use proto_radar.Domain.Enums.{RuntimeDriftStatus}
use proto_radar.Domain.Records.{Module}
use proto_radar.Domain.Versions.{ModuleVersion, is_deprecated}
use proto_radar.Domain.Runtime.{RuntimeModuleUsage}
use proto_radar.Store.Db.{Db, Platform}
use proto_radar.Store.World.{World, M}
use proto_radar.Store.Modules.{get_module_by_name}
use proto_radar.Store.Versions.{
  versions_of, find_version, get_version, latest_of, get_latest_version,
}
use proto_radar.Store.Quiet.{IsQuiet, find_row_quiet, then_quiet}
use proto_radar.Inventory.References.{ReportedModuleReference}
use proto_radar.Inventory.Drift.{
  unknown_usage, drift, latest_text, resolve_against_latest, resolve_in_module,
  resolve_runtime_usage,
}

abbrev pub module_named : String → Db → Option Module
module_named name db = find (λ (row : Module). row.name == name) db.modules

abbrev pub NoneLater : ModuleVersion → List ModuleVersion → Type 0
NoneLater l = All λ (v : ModuleVersion). v.created_at ≤ l.created_at

abbrev pub has_row : ModuleVersion → List ModuleVersion → Bool
has_row l = any λ (v : ModuleVersion). v.id == l.id && v.version == l.version

none_latest : (xs : List ModuleVersion) → latest_of xs ≡ none → xs ≡ []
unfolding latest_of
none_latest [] h = refl
none_latest (v ∷ rest) h = cc

later-NoneLater :
    (v l : ModuleVersion) (xs : List ModuleVersion)
    → l.created_at ≤ v.created_at
    → NoneLater l xs
    → NoneLater v xs
later-NoneLater v l [] h k = tt
later-NoneLater v l (x ∷ xs) h k = (omega (arith, h, k.0), later-NoneLater v l xs h k.1)

abbrev IsLatestOf : ModuleVersion → List ModuleVersion → Type 0
IsLatestOf l xs = NoneLater l xs × (has_row l xs ≡ true)

latest_first :
    (v : ModuleVersion) (rest : List ModuleVersion) → NoneLater v rest → IsLatestOf v (v ∷ rest)
latest_first v rest h = ((omega arith, h), ground (arith, eq_refl v.id, eq_refl v.version))

-- The latest version is one of the versions, and none is later.
pub latest_of-lem :
    (xs : List ModuleVersion) (l : ModuleVersion) → latest_of xs ≡ some l → IsLatestOf l xs
unfolding latest_of
latest_of-lem [] l h = cc
latest_of-lem (v ∷ rest) l h = elim (Option-cases (latest_of rest)) [
  | inl nothing ↦
      let e : v ≡ l = ground (arith, nothing, h) in
      subst (λ k. IsLatestOf k (v ∷ rest)) e
        (latest_first v rest (subst (NoneLater v) (sym (none_latest rest nothing)) tt))
  | inr (m, more) ↦
      let (none_later, stands) = latest_of-lem rest m more in
      elim (Bool-cases (leb m.created_at v.created_at)) [
        | inl older ↦
            let e : v ≡ l = ground (arith, more, older, h) in
            subst (λ k. IsLatestOf k (v ∷ rest)) e
              (latest_first v rest
                (later-NoneLater v m rest (leb→le m.created_at v.created_at older) none_later))
        | inr newer ↦
            let e : m ≡ l = ground (arith, more, newer, h) in
            subst (λ k. IsLatestOf k (v ∷ rest)) e
              ((ground (arith, newer), none_later), ground (arith, stands))
      ]
]

-- How a usage of a reference drifts from the registry: what there is of its module and its version, with
-- the status that stands for it.
pub data IsDrift (db : Db) (r : ReportedModuleReference) (u : RuntimeModuleUsage) : Type 0 where
  no_module :
      module_named r.module_name db ≡ none
      → u.drift_status ≡ RuntimeDriftStatus.unknown_version
      → u.module_id ≡ none
      → IsDrift db r u
  no_version :
      (m : Module)
      → module_named r.module_name db ≡ some m
      → find_version m.id r.version db ≡ none
      → u.drift_status ≡ RuntimeDriftStatus.unknown_version
      → u.module_id ≡ some m.id
      → IsDrift db r u
  deprecated :
      (m : Module) (v : ModuleVersion)
      → module_named r.module_name db ≡ some m
      → find_version m.id r.version db ≡ some v
      → is_deprecated v ≡ true
      → u.drift_status ≡ RuntimeDriftStatus.deprecated_version
      → IsDrift db r u
  current :
      (m : Module) (v l : ModuleVersion)
      → module_named r.module_name db ≡ some m
      → find_version m.id r.version db ≡ some v
      → is_deprecated v ≡ false
      → IsLatestOf l (versions_of m.id db)
      → (l.id == v.id || l.version == v.version) ≡ true
      → u.drift_status ≡ RuntimeDriftStatus.up_to_date
      → IsDrift db r u
  behind :
      (m : Module) (v l : ModuleVersion)
      → module_named r.module_name db ≡ some m
      → find_version m.id r.version db ≡ some v
      → is_deprecated v ≡ false
      → IsLatestOf l (versions_of m.id db)
      → (l.id == v.id || l.version == v.version) ≡ false
      → u.drift_status ≡ RuntimeDriftStatus.behind_latest
      → u.latest_version ≡ some l.version
      → IsDrift db r u

no_version_of :
    (db : Db) (id version : String) → versions_of id db ≡ [] → find_version id version db ≡ none
unfolding find_version
no_version_of db id version h = ap (find (λ (row : ModuleVersion). row.version == version)) h

drift-IsDrift :
    (db : Db) (r : ReportedModuleReference) (m : Module) (v : ModuleVersion)
    (latest : Option ModuleVersion)
    → module_named r.module_name db ≡ some m
    → find_version m.id r.version db ≡ some v
    → latest_of (versions_of m.id db) ≡ latest
    → IsDrift db r (
        drift v latest (record (unknown_usage r) {
          module_id = some m.id;
          module_version_id = some v.id;
          latest_version = latest_text latest;
        }))
unfolding drift unknown_usage
drift-IsDrift db r m v none found stored last = absurd (
    ground
      (arith, stored, no_version_of db m.id r.version (none_latest (versions_of m.id db) last)))
drift-IsDrift db r m v (some l) found stored last = elim (Bool-cases (is_deprecated v)) [
  | inl old ↦ rw old (IsDrift.deprecated m v found stored old refl)
  | inr not_old ↦ elim (Bool-cases (l.id == v.id || l.version == v.version)) [
    | inl same ↦
        rw (not_old, same)
          (IsDrift.current m v l found stored not_old (latest_of-lem (versions_of m.id db) l last)
            same refl)
    | inr different ↦
        rw (not_old, different)
          (IsDrift.behind m v l found stored not_old (latest_of-lem (versions_of m.id db) l last)
            different refl refl)
  ]
]

-- The ids of the modules are as Postgres prints them.
abbrev pub ModulesPrinted : Platform → List Module → Type 0
ModulesPrinted platform = All λ (m : Module). platform.uuid m.id ≡ some m.id

module _ (platform : Platform) (r : ReportedModuleReference) (w : World) where
  abbrev Answers : M RuntimeModuleUsage → Type 0
  Answers m = (u : RuntimeModuleUsage) × (m w ≡ (ok u, w)) × IsDrift w.db r u

  against_latest-Answers :
      (m : Module) (v : ModuleVersion)
      → IsQuiet w
      → platform.uuid m.id ≡ some m.id
      → module_named r.module_name w.db ≡ some m
      → find_version m.id r.version w.db ≡ some v
      → Answers (
          resolve_against_latest platform m.id v
            (record (unknown_usage r) { module_id = some m.id }))
  unfolding resolve_against_latest get_latest_version
  against_latest-Answers m v quiet printed found stored =
      let latest = latest_of (versions_of m.id w.db) in
      (
        drift v latest (record (unknown_usage r) {
          module_id = some m.id;
          module_version_id = some v.id;
          latest_version = latest_text latest;
        }),
        then_quiet _ _ latest w (find_row_quiet _ latest w quiet (ground (arith, printed))),
        drift-IsDrift w.db r m v latest found stored refl,
      )

  in_module-Answers :
      (m : Module)
      → IsQuiet w
      → platform.uuid m.id ≡ some m.id
      → module_named r.module_name w.db ≡ some m
      → Answers (resolve_in_module platform r m)
  unfolding resolve_in_module get_version
  in_module-Answers m quiet printed found = elim (Option-cases (find_version m.id r.version w.db)) [
    | inl missing ↦ (
      record (unknown_usage r) { module_id = some m.id; drift_reason = "version_not_found" },
      then_quiet _ _ none w (find_row_quiet _ none w quiet (ground (arith, printed, missing))),
      unfold unknown_usage in IsDrift.no_version m found missing refl refl,
    )
    | inr (v, stored) ↦
        let (u, e, d) = against_latest-Answers m v quiet printed found stored in
        (
          u,
          then_quiet _ _ (some v) w
                (find_row_quiet _ (some v) w quiet (ground (arith, printed, stored)))
              ∙ e,
          d,
        )
  ]

-- Without faults, and if the ids of the modules are as Postgres prints them, a reference is resolved
-- without any change, and the usage has the status that the registry stands for: unknown without the
-- module or the version; else deprecated; else up to date if the version is the latest one; else behind a
-- latest version, which it names.
pub resolve_runtime_usage-IsDrift :
    (platform : Platform) (r : ReportedModuleReference) (w : World)
    → IsQuiet w
    → ModulesPrinted platform w.db.modules
    → (u : RuntimeModuleUsage) × (resolve_runtime_usage platform r w ≡ (ok u, w)) × IsDrift w.db r u
unfolding resolve_runtime_usage get_module_by_name
resolve_runtime_usage-IsDrift platform r w quiet printed =
    elim (Option-cases (module_named r.module_name w.db)) [
      | inl missing ↦ (
        unknown_usage r,
        then_quiet _ _ none w (find_row_quiet _ none w quiet (ground (arith, missing))),
        unfold unknown_usage in IsDrift.no_module missing refl refl,
      )
      | inr (m, found) ↦
          let (u, e, d) =
            in_module-Answers platform r w m quiet
              (All-find (λ (x : Module). platform.uuid x.id ≡ some x.id)
                (λ (row : Module). row.name == r.module_name) w.db.modules m printed found)
              found in
          (
            u,
            then_quiet _ _ (some m) w (find_row_quiet _ (some m) w quiet (ground (arith, found)))
                ∙ e,
            d,
          )
    ]
