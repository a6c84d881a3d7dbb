-- ===== src/Inventory/Resolving.antt =====
-- What ReportRuntimeInventory accepts and resolves before its transaction.
use proto_radar.Prelude.{
  Paired, ℕ, suc, ◌+◌, String, ◌==◌, ◌||◌, ◌≡◌, refl, ap₂, ◌∙◌, Option, none, some, List, [], ◌∷◌,
  map, length, All, trim_space, Bool-cases, arith, inl, inr,
}
use proto_radar.Domain.Errors.{ok}
use proto_radar.Domain.Names.{
  new_runtime_service_name, new_runtime_environment, validate_runtime_git_commit,
  validate_runtime_build_version,
}
use proto_radar.Domain.Records.{Time, Module}
use proto_radar.Domain.Enums.{RuntimeDriftStatus}
use proto_radar.Domain.Versions.{ModuleVersion, is_deprecated}
use proto_radar.Domain.Runtime.{RuntimeModuleUsage}
use proto_radar.Store.Db.{Db, Platform}
use proto_radar.Store.World.{done}
use proto_radar.Store.Modules.{get_module_by_name}
use proto_radar.Store.Versions.{get_version, get_latest_version}
use proto_radar.Store.Triples.{
  Holds, Answered, holds_answered, holds_given, holds_then, holds_imp, holds_random_hex, then_lift,
  Keeps-query,
}
use proto_radar.Store.Triples.Lookups.{found}
use proto_radar.Events.Runtime.{DriftCounts}
use proto_radar.Inventory.References.{ReportedModuleReference, reported_module_references}
use proto_radar.Inventory.Drift.{
  unknown_usage, drift, id_of, version_of, latest_text, resolve_against_latest, resolve_in_module,
  resolve_runtime_usage,
}
use proto_radar.Inventory.Report.{
  ReportRuntimeInventoryInput, Accepted, at_or_now, accept_report, resolve_usages, add_count,
  count_drift,
}

abbrev pub reference_of : RuntimeModuleUsage → ReportedModuleReference
reference_of usage = record { module_name = usage.module_name; version = usage.version }

reference-drift :
    (version : ModuleVersion) (latest : Option ModuleVersion) (usage : RuntimeModuleUsage)
    → reference_of (drift version latest usage) ≡ reference_of usage
unfolding drift
reference-drift version latest usage = elim (Bool-cases (is_deprecated version)) [
  | inl old ↦ rw old refl
  | inr current ↦
      elim (Bool-cases (id_of latest == version.id || version_of latest == version.version)) [
        | inl same ↦ rw (current, same) refl
        | inr behind ↦ rw (current, behind) refl
      ]
]

module _ (P : Db → Type 0) (platform : Platform) (reference : ReportedModuleReference) where
  abbrev Names : RuntimeModuleUsage → Db → Type 0
  Names usage db = P db × (reference_of usage ≡ reference)

  against_latest :
      (module_id : String) (version : ModuleVersion) (usage : RuntimeModuleUsage)
      → reference_of usage ≡ reference
      → Holds P (resolve_against_latest platform module_id version usage) Names P
  unfolding resolve_against_latest get_latest_version
  against_latest module_id version usage h = holds_then (found P (Keeps-query _)) (λ latest.
      record {
        runs = λ w p. (
          p,
          reference-drift version latest (record usage {
            module_version_id = some version.id;
            latest_version = latest_text latest;
          })
              ∙ h,
        );
      })

  optional-Names :
      (row : Option ModuleVersion) (m : Module)
      → Holds P
          (elim row [
            | none ↦ done (record (unknown_usage reference) {
              module_id = some m.id;
              drift_reason = "version_not_found";
            })
            | some version ↦
                resolve_against_latest platform m.id version
                  (record (unknown_usage reference) { module_id = some m.id })
          ])
          Names
          P
  unfolding unknown_usage
  optional-Names none m = record { runs = λ w p. (p, refl) }
  optional-Names (some version) m =
      against_latest m.id version (record (unknown_usage reference) { module_id = some m.id }) refl

  in_module : (m : Module) → Holds P (resolve_in_module platform reference m) Names P
  unfolding resolve_in_module get_version
  in_module m = holds_then (found P (Keeps-query _)) (λ row. optional-Names row m)

  optional_module :
      (row : Option Module)
      → Holds P
          (elim row [
            | none ↦ done (unknown_usage reference)
            | some m ↦ resolve_in_module platform reference m
          ])
          Names
          P
  unfolding unknown_usage
  optional_module none = record { runs = λ w p. (p, refl) }
  optional_module (some m) = in_module m

  resolve-Names : Holds P (resolve_runtime_usage platform reference) Names P
  unfolding resolve_runtime_usage get_module_by_name
  resolve-Names = holds_then (found P (Keeps-query _)) optional_module

-- A usage with what was resolved for its reference in a world with P.
pub record IsResolvedUsage (P : Db → Type 0) (platform : Platform) (deployment_id : String)
    (at : Time) (reference : ReportedModuleReference) (usage : RuntimeModuleUsage) : Type 0 where
  pub resolved : RuntimeModuleUsage
  pub answered : Answered P (resolve_runtime_usage platform reference) resolved
  pub columns :
      usage ≡ record resolved { id = usage.id; deployment_id = deployment_id; created_at = at }

-- The usages are of the references, in their order, as they were resolved, and of the deployment.
pub record AreResolved (P : Db → Type 0) (platform : Platform) (deployment_id : String) (at : Time)
    (references : List ReportedModuleReference) (usages : List RuntimeModuleUsage) : Type 0 where
  pub named : map reference_of usages ≡ references
  pub resolved : Paired (IsResolvedUsage P platform deployment_id at) references usages
  pub own : All (λ (u : RuntimeModuleUsage). u.deployment_id ≡ deployment_id) usages

pub resolve_usages-AreResolved :
    (P : Db → Type 0) (platform : Platform) (deployment_id : String) (at : Time)
    (references : List ReportedModuleReference)
    → Holds P
        (resolve_usages platform deployment_id at references)
        (λ usages db. P db × AreResolved P platform deployment_id at references usages)
        P
unfolding resolve_usages
resolve_usages-AreResolved P platform deployment_id at [] = record {
  runs = λ w p. (p, record { named = refl; resolved = tt; own = tt });
}
resolve_usages-AreResolved P platform deployment_id at (reference ∷ rest) =
    holds_then
      (holds_imp (λ db p. p) (λ usage db q. (q.0.0, (q.0.1, q.1))) (λ db p. p)
        (holds_answered (resolve-Names P platform reference)))
      (λ usage.
        holds_given
          {F = (reference_of usage ≡ reference)
            × Answered P (resolve_runtime_usage platform reference) usage}
          (λ facts. holds_then holds_random_hex (λ id.
            holds_then (resolve_usages-AreResolved P platform deployment_id at rest) (λ more.
              record {
                runs = λ w q. (
                  q.0,
                  record {
                    named = ap₂ (λ r rs. r ∷ rs) facts.0 q.1.named;
                    resolved = (
                      record { resolved = usage; answered = facts.1; columns = refl },
                      q.1.resolved,
                    );
                    own = (refl, q.1.own);
                  },
                );
              }))))

-- What an accepted report has of its input.
pub record IsAcceptedReport (input : ReportRuntimeInventoryInput) (now : Time) (report : Accepted)
    : Type 0 where
  pub service : new_runtime_service_name input.service_name ≡ ok report.service_name
  pub environment : new_runtime_environment input.environment ≡ ok report.environment
  pub valid_commit : validate_runtime_git_commit (trim_space input.git_commit) ≡ ok tt
  pub valid_build : validate_runtime_build_version (trim_space input.build_version) ≡ ok tt
  pub reported_at : report.reported_at ≡ elim input.reported_at [ none ↦ now | some at ↦ at ]
  pub git_commit : report.git_commit ≡ trim_space input.git_commit
  pub build_version : report.build_version ≡ trim_space input.build_version
  pub references : reported_module_references input.reported ≡ ok report.references

at_or_now_lem :
    (at : Option Time) (now : Time) → at_or_now at now ≡ elim at [ none ↦ now | some at ↦ at ]
at_or_now_lem none now = refl
at_or_now_lem (some at) now = refl

pub accept_report-IsAcceptedReport :
    (P : Db → Type 0) (input : ReportRuntimeInventoryInput) (now : Time)
    → Holds P (accept_report input now) (λ report db. P db × IsAcceptedReport input now report) P
unfolding accept_report
accept_report-IsAcceptedReport P input now =
    then_lift (new_runtime_service_name input.service_name) _ (λ db p. p)
      (λ name e.
        then_lift (new_runtime_environment input.environment) _ (λ db p. p)
          (λ environment f.
            then_lift (validate_runtime_git_commit (trim_space input.git_commit)) _ (λ db p. p)
              (λ _ g.
                then_lift (validate_runtime_build_version (trim_space input.build_version)) _
                  (λ db p. p)
                  (λ _ h.
                    then_lift (reported_module_references input.reported) _ (λ db p. p)
                      (λ references k. record {
                        runs = λ w p. (
                          p,
                          record {
                            service = e;
                            environment = f;
                            valid_commit = g;
                            valid_build = h;
                            reported_at = at_or_now_lem input.reported_at now;
                            git_commit = refl;
                            build_version = refl;
                            references = k;
                          },
                        );
                      })))))

abbrev pub total : DriftCounts → ℕ
total counts =
    counts.up_to_date + counts.behind_latest + counts.unknown_version + counts.deprecated_version

total-add_count :
    (status : RuntimeDriftStatus) (counts : DriftCounts)
    → total (add_count status counts) ≡ suc (total counts)
unfolding add_count
total-add_count RuntimeDriftStatus.up_to_date counts = omega arith
total-add_count RuntimeDriftStatus.behind_latest counts = omega arith
total-add_count RuntimeDriftStatus.unknown_version counts = omega arith
total-add_count RuntimeDriftStatus.deprecated_version counts = omega arith

pub total-count_drift :
    (counts : DriftCounts) (usages : List RuntimeModuleUsage)
    → total (count_drift counts usages) ≡ total counts + length usages
unfolding count_drift
total-count_drift counts [] = omega arith
total-count_drift counts (usage ∷ rest) =
    total-count_drift (add_count usage.drift_status counts) rest
    ∙ omega (arith, total-add_count usage.drift_status counts)
