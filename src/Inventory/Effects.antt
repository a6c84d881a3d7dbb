-- ===== src/Inventory/Effects.antt =====
-- ReportRuntimeInventory as a whole: what it leaves when it succeeds, and when it fails.
use proto_radar.Prelude.{
  String, ◌≡◌, refl, sym, ◌∙◌, some, List, [], ◌∷◌, ◌++◌, map, length, All, arith,
}
use proto_radar.Domain.Errors.{Err, ok, err}
use proto_radar.Domain.Records.{Time}
use proto_radar.Domain.Runtime.{RuntimeService, RuntimeModuleUsage}
use proto_radar.Store.Db.{Db, DeploymentRow, Platform}
use proto_radar.Store.World.{World}
use proto_radar.Store.Runtime.{
  upsert_runtime_service, create_runtime_deployment, create_runtime_module_usages, create_usages,
}
use proto_radar.Store.Triples.{
  Holds, holds_then, holds_imp, holds_joined, holds_random_hex, holds_given,
  holds_within_transaction, outcome_ok, outcome_err,
}
use proto_radar.Store.Triples.Lookups.{holds_some, holds_from, statement_at, returning_at}
use proto_radar.Store.Triples.Outbox.{IsWrittenEvent, write_event-IsWrittenEvent}
use proto_radar.Events.Runtime.{new_runtime_inventory_reported}
use proto_radar.Inventory.Report.{
  ReportRuntimeInventoryInput, ReportRuntimeInventoryOutput, Accepted, reported_service,
  reported_deployment, reported_event, write_report, store_report, report_runtime_inventory,
  runtime_usage_output, no_counts,
}
use proto_radar.Inventory.Resolving.{
  AreResolved, resolve_usages-AreResolved, IsAcceptedReport, accept_report-IsAcceptedReport, total,
  total-count_drift,
}
use proto_radar.Inventory.Services.{ArePrinted, IsUpserted, upsert_service_ok}
use proto_radar.Inventory.Writes.{
  IsDeployment, insert_deployment_ok, AreAdded, create_usages-AreAdded,
}

-- The tables after a report: the service of its name, one deployment of it, the usages of that, the
-- event in the outbox, and nothing else changed.
pub record IsReported (platform : Platform) (wall : Time) (deployment_id : String)
    (report : Accepted) (usages : List RuntimeModuleUsage) (before after : Db) : Type 0 where
  pub service : RuntimeService
  pub services : List RuntimeService
  pub upserted : IsUpserted platform report.service_name service before.services services
  pub deployment : DeploymentRow
  pub deployed : IsDeployment platform (reported_deployment deployment_id service report) deployment
  pub of_service : deployment.service_id ≡ service.id
  pub between : Db
  pub added :
      AreAdded platform wall deployment.id usages
        (record before { services = services; deployments = before.deployments ++ deployment ∷ [] })
        between
  pub written :
      IsWrittenEvent report.reported_at
        (new_runtime_inventory_reported platform
          (reported_event deployment_id service report usages))
        between
        after

some_inj : {a b : String} → some a ≡ some b → a ≡ b
some_inj h = cc

module _ (platform : Platform) (wall : Time) (service_id deployment_id : String) (report : Accepted)
    (usages : List RuntimeModuleUsage) (before : Db) where
  abbrev WithServices : RuntimeService → List RuntimeService → Type 0
  WithServices service services =
      (service.name ≡ report.service_name)
      × IsUpserted platform report.service_name service before.services services

  upserted :
      ArePrinted platform before.services
      → Holds
          (λ db. db ≡ before)
          (upsert_runtime_service platform wall (reported_service service_id report))
          (λ service db.
            (services : List RuntimeService) × WithServices service services
            × (db ≡ record before { services = services }))
          (λ _. Unit)
  unfolding upsert_runtime_service reported_service
  upserted printed =
      holds_imp (λ db e. e)
        (λ service after e.
          let (is_after, name, u) =
            upsert_service_ok platform wall (reported_service service_id report) service before
              after printed e in
          (after.services, (name, u), is_after))
        (λ db e. e) (returning_at before _)

  write_report-IsReported :
      ArePrinted platform before.services
      → All (λ (u : RuntimeModuleUsage). u.deployment_id ≡ deployment_id) usages
      → Holds
          (λ db. db ≡ before)
          (write_report platform wall service_id deployment_id report usages)
          (λ _. IsReported platform wall deployment_id report usages before)
          (λ _. Unit)
  unfolding write_report create_runtime_deployment create_runtime_module_usages
  write_report-IsReported printed own = holds_then (upserted printed) (λ service.
      holds_some (λ services facts.
        holds_then
          (holds_imp (λ db e. e)
            (λ _ after e.
              insert_deployment_ok platform wall (reported_deployment deployment_id service report)
                (record before { services = services }) after e)
            (λ db e. e) (statement_at (record before { services = services }) _))
          (λ _. holds_some (λ row deployed.
            holds_then
              (holds_joined (λ in_tx. create_usages platform wall usages)
                (create_usages-AreAdded platform wall deployment_id row.id usages
                  (record before {
                    services = services;
                    deployments = before.deployments ++ row ∷ [];
                  })
                  own deployed.printed))
              (λ _. holds_from (λ between added.
                holds_imp (λ db e. e)
                  (λ _ after written. record {
                    service = service;
                    services = services;
                    upserted = facts.1;
                    deployment = row;
                    deployed = deployed;
                    of_service = some_inj (sym deployed.of_service ∙ facts.1.printed);
                    between = between;
                    added = added;
                    written = written;
                  })
                  (λ db e. e)
                  (write_event-IsWrittenEvent report.reported_at
                    (new_runtime_inventory_reported platform
                      (reported_event deployment_id service report usages))
                    between)))))))

-- The whole of a report.
pub record IsReportOf (platform : Platform) (wall now : Time) (input : ReportRuntimeInventoryInput)
    (before : Db) (output : ReportRuntimeInventoryOutput) (after : Db) : Type 0 where
  pub report : Accepted
  pub usages : List RuntimeModuleUsage
  pub accepted : IsAcceptedReport input now report
  pub resolved :
      AreResolved
        (λ db. db ≡ before)
        platform
        output.deployment_id
        report.reported_at
        report.references
        usages
  pub reported : IsReported platform wall output.deployment_id report usages before after
  pub output_names :
      (output.service_name ≡ report.service_name)
      × (output.environment ≡ report.environment)
      × (output.git_commit ≡ report.git_commit)
      × (output.build_version ≡ report.build_version)
      × (output.reported_at ≡ report.reported_at)
  pub output_usages : output.usages ≡ map runtime_usage_output usages
  pub counted : total output.drift_counts ≡ length usages

module _ (platform : Platform) (wall now : Time) (input : ReportRuntimeInventoryInput)
    (before : Db) where
  stored :
      (service_id deployment_id : String) (report : Accepted) (usages : List RuntimeModuleUsage)
      → ArePrinted platform before.services
      → All (λ (u : RuntimeModuleUsage). u.deployment_id ≡ deployment_id) usages
      → Holds
          (λ db. db ≡ before)
          (store_report platform wall service_id deployment_id report usages)
          (λ _. IsReported platform wall deployment_id report usages before)
          (λ db. db ≡ before)
  unfolding store_report
  stored service_id deployment_id report usages printed own =
      holds_within_transaction
        (λ in_tx. write_report platform wall service_id deployment_id report usages)
        (write_report-IsReported platform wall service_id deployment_id report usages before printed
          own)

  report-IsReportOf :
      ArePrinted platform before.services
      → Holds
          (λ db. db ≡ before)
          (report_runtime_inventory platform wall input now)
          (IsReportOf platform wall now input before)
          (λ db. db ≡ before)
  unfolding report_runtime_inventory
  report-IsReportOf printed =
      holds_then (accept_report-IsAcceptedReport (λ db. db ≡ before) input now) (λ report.
        holds_given (λ accepted. holds_then holds_random_hex (λ service_id.
          holds_then holds_random_hex (λ deployment_id.
            holds_then
              (resolve_usages-AreResolved (λ db. db ≡ before) platform deployment_id
                report.reported_at report.references)
              (λ usages. holds_given (λ resolved.
                holds_then (stored service_id deployment_id report usages printed resolved.own)
                  (λ _. record {
                    runs = λ w reported. record {
                      report = report;
                      usages = usages;
                      accepted = accepted;
                      resolved = resolved;
                      reported = reported;
                      output_names = (refl, refl, refl, refl, refl);
                      output_usages = refl;
                      counted = total-count_drift no_counts usages ∙ omega arith;
                    };
                  })))))))

-- If the ids of the services are as Postgres prints them and a report succeeds, then its fields and its
-- modules were accepted, each by its own check, there is one usage for each accepted reference, in their
-- order, as the reference is resolved on the database of before, the drift counts add up to their number,
-- and the database is as before but for the service of the name, one deployment of it at the end, the
-- rows of the usages, column by column, at the end, and the event in the outbox.
pub report_runtime_inventory_effect :
    (platform : Platform) (wall now : Time) (input : ReportRuntimeInventoryInput) (w : World)
    (output : ReportRuntimeInventoryOutput)
    → ArePrinted platform w.db.services
    → (report_runtime_inventory platform wall input now w).0 ≡ ok output
    → IsReportOf platform wall now input w.db output
        (report_runtime_inventory platform wall input now w).1.db
report_runtime_inventory_effect platform wall now input w output printed h =
    outcome_ok (IsReportOf platform wall now input w.db) (λ db. db ≡ w.db)
      (report_runtime_inventory platform wall input now w) output
      ((report-IsReportOf platform wall now input w.db printed).runs w refl) h

-- If the ids of the services are as Postgres prints them and a report returns an error, whatever failed,
-- the whole database is as before.
pub report_runtime_inventory_error :
    (platform : Platform) (wall now : Time) (input : ReportRuntimeInventoryInput) (w : World)
    (e : Err)
    → ArePrinted platform w.db.services
    → (report_runtime_inventory platform wall input now w).0 ≡ err e
    → (report_runtime_inventory platform wall input now w).1.db ≡ w.db
report_runtime_inventory_error platform wall now input w e printed h =
    outcome_err (IsReportOf platform wall now input w.db) (λ db. db ≡ w.db)
      (report_runtime_inventory platform wall input now w) e
      ((report-IsReportOf platform wall now input w.db printed).runs w refl) h
