-- ===== src/Inventory/Writes.antt =====
-- The statements of ReportRuntimeInventory, one by one, and what they leave.
use proto_radar.Prelude.{
  Paired, append_nil, append_assoc, String, ◌≡◌, refl, sym, ap, ◌∙◌, some, List, [], ◌∷◌, ◌++◌, All,
  arith, Option-cases, inl, inr,
}
use proto_radar.Domain.Errors.{Result, ok, err}
use proto_radar.Domain.Records.{Time}
use proto_radar.Domain.Runtime.{RuntimeDeployment, RuntimeModuleUsage}
use proto_radar.Store.Db.{
  Db, DeploymentRow, UsageRow, Platform, with_uuid-eq-ok, with_nullable_uuid-eq-ok, IsPrintedAs,
}
use proto_radar.Store.Runtime.{
  insert_deployment, usage_row, insert_usage, time_or_now, create_runtime_module_usage,
  create_usages,
}
use proto_radar.Store.Triples.{Holds, holds_then, holds_imp, holds_statement}
use proto_radar.Store.Triples.Lookups.{holds_some}

-- The columns of a deployment that the report sets.
pub record IsDeployment (platform : Platform) (deployment : RuntimeDeployment) (row : DeploymentRow)
    : Type 0 where
  pub printed : platform.uuid deployment.id ≡ some row.id
  pub of_service : platform.uuid deployment.service_id ≡ some row.service_id
  pub environment : row.environment ≡ deployment.environment
  pub git_commit : row.git_commit ≡ deployment.git_commit
  pub build_version : row.build_version ≡ deployment.build_version
  pub reported_at : row.reported_at ≡ deployment.reported_at

abbrev DeploymentAdded : Platform → RuntimeDeployment → Db → Result Db → Type 0
DeploymentAdded platform deployment db (err e) = Unit
DeploymentAdded platform deployment db (ok after) =
    (row : DeploymentRow) × IsDeployment platform deployment row
    × (after ≡ record db { deployments = db.deployments ++ row ∷ [] })

pub insert_deployment_ok :
    (platform : Platform) (wall : Time) (deployment : RuntimeDeployment) (db after : Db)
    → insert_deployment platform wall deployment db ≡ ok after
    → (row : DeploymentRow) × IsDeployment platform deployment row
      × (after ≡ record db { deployments = db.deployments ++ row ∷ [] })
unfolding insert_deployment
insert_deployment_ok platform wall deployment db after h =
    elim (Option-cases (platform.uuid deployment.id)) [
      | inl bad ↦ ground (arith, bad, h)
      | inr (id, printed) ↦ elim (Option-cases (platform.uuid deployment.service_id)) [
        | inl bad ↦ ground (arith, printed, bad, h)
        | inr (service_id, of_service) ↦
            let row : DeploymentRow = record {
              id = id;
              service_id = service_id;
              environment = deployment.environment;
              git_commit = deployment.git_commit;
              build_version = deployment.build_version;
              reported_at = deployment.reported_at;
              created_at = time_or_now wall deployment.created_at;
            } in
            (
              row,
              record {
                printed = printed;
                of_service = of_service;
                environment = refl;
                git_commit = refl;
                build_version = refl;
                reported_at = refl;
              },
              ground (arith, printed, of_service, h),
            )
      ]
    ]

-- The columns of a usage.
pub record IsUsage (platform : Platform) (wall : Time) (usage : RuntimeModuleUsage) (row : UsageRow)
    : Type 0 where
  pub id : platform.uuid usage.id ≡ some row.id
  pub deployment : platform.uuid usage.deployment_id ≡ some row.deployment_id
  pub module_id : IsPrintedAs platform usage.module_id row.module_id
  pub module_name : row.module_name ≡ usage.module_name
  pub module_version_id : IsPrintedAs platform usage.module_version_id row.module_version_id
  pub version : row.version ≡ usage.version
  pub drift_status : row.drift_status ≡ usage.drift_status
  pub drift_reason : row.drift_reason ≡ usage.drift_reason
  pub created_at : row.created_at ≡ time_or_now wall usage.created_at

pub insert_usage_ok :
    (platform : Platform) (wall : Time) (usage : RuntimeModuleUsage) (db after : Db)
    → insert_usage platform wall usage db ≡ ok after
    → (row : UsageRow) × IsUsage platform wall usage row
      × (after ≡ record db { usages = db.usages ++ row ∷ [] })
unfolding insert_usage usage_row
insert_usage_ok platform wall usage db after h =
    let (id, id_printed, h1) = with_uuid-eq-ok platform usage.id _ after h in
    let (deployment, printed, h2) = with_uuid-eq-ok platform usage.deployment_id _ after h1 in
    let (m, m_printed, h3) = with_nullable_uuid-eq-ok platform usage.module_id _ after h2 in
    let (v, v_printed, h4) = with_nullable_uuid-eq-ok platform usage.module_version_id _ after h3 in
    (
      usage_row wall usage id deployment m v,
      record {
        id = id_printed;
        deployment = printed;
        module_id = m_printed;
        module_name = refl;
        module_version_id = v_printed;
        version = refl;
        drift_status = refl;
        drift_reason = refl;
        created_at = refl;
      },
      ground (arith, h4),
    )

abbrev pub with_usages : List UsageRow → Db → Db
with_usages rows db = record db { usages = db.usages ++ rows }

-- The rows of the usages, in their order, after the ones that were there, all of the deployment; nothing
-- else changed.
pub record AreAdded (platform : Platform) (wall : Time) (key : String)
    (usages : List RuntimeModuleUsage) (before after : Db) : Type 0 where
  pub rows : List UsageRow
  pub is_after : after ≡ with_usages rows before
  pub columns : Paired (IsUsage platform wall) usages rows
  pub of_deployment : All (λ (row : UsageRow). row.deployment_id ≡ key) rows

module _ (platform : Platform) (wall : Time) (deployment_id key : String) where
  abbrev OneAdded : RuntimeModuleUsage → UsageRow → Type 0
  OneAdded usage row = (row.deployment_id ≡ key) × IsUsage platform wall usage row

  one_added :
      (usage : RuntimeModuleUsage) (before : Db)
      → usage.deployment_id ≡ deployment_id
      → platform.uuid deployment_id ≡ some key
      → Holds
          (λ db. db ≡ before)
          (create_runtime_module_usage platform wall usage)
          (λ _ after.
            (row : UsageRow) × OneAdded usage row × (after ≡ with_usages (row ∷ []) before))
          (λ _. Unit)
  unfolding create_runtime_module_usage
  one_added usage before own printed =
      holds_imp (λ db e. e)
        (λ _ after (db, same, e).
          let (row, columns, is_after) = insert_usage_ok platform wall usage db after e in
          (
            row,
            (ground (arith, columns.deployment, own, printed), columns),
            rw (sym same) is_after,
          ))
        (λ db e. tt) (holds_statement _)

  pub create_usages-AreAdded :
      (usages : List RuntimeModuleUsage) (before : Db)
      → All (λ (u : RuntimeModuleUsage). u.deployment_id ≡ deployment_id) usages
      → platform.uuid deployment_id ≡ some key
      → Holds
          (λ db. db ≡ before)
          (create_usages platform wall usages)
          (λ _. AreAdded platform wall key usages before)
          (λ _. Unit)
  unfolding create_usages
  create_usages-AreAdded [] before own printed = record {
    runs = λ w e. record {
      rows = [];
      is_after = e ∙ ap (λ rows. record before { usages = rows }) (sym (append_nil before.usages));
      columns = tt;
      of_deployment = tt;
    };
  }
  create_usages-AreAdded (usage ∷ rest) before own printed =
      holds_then (one_added usage before own.0 printed) (λ _. holds_some (λ row added.
        holds_imp (λ db e. e)
          (λ _ after a. record {
            rows = row ∷ a.rows;
            is_after =
                a.is_after
                ∙ ap (λ rows. record before { usages = rows })
                    (append_assoc before.usages (row ∷ []) a.rows);
            columns = (added.1, a.columns);
            of_deployment = (added.0, a.of_deployment);
          })
          (λ db e. e) (create_usages-AreAdded rest (with_usages (row ∷ []) before) own.1 printed)))
