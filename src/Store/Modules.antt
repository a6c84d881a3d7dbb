-- ===== src/Store/Modules.antt =====
-- internal/repository/postgres/modules.go and breaking_reports.go: the lookups that governance makes.
use proto_radar.Prelude.{String, ◌==◌, Option, none, some, find}
use proto_radar.Domain.Errors.{Result, ok, err, domain, DomainError}
use proto_radar.Domain.Records.{Module, BreakingReport}
use proto_radar.Store.Db.{Db, Platform, with_uuid}
use proto_radar.Store.World.{M, query, ◌>>=◌, ◌>>◌, done}

-- QueryRow: pgx.ErrNoRows becomes ErrNotFound.
abbrev pub row_or_not_found {ℓ} : {A : Type ℓ} → Option A → Result A
row_or_not_found none = err (domain DomainError.not_found)
row_or_not_found (some a) = ok a

unfoldable pub module_with_id : String → Db → Option Module
module_with_id id db = find (λ (row : Module). row.id == id) db.modules

unfoldable pub get_module_by_id : Platform → String → M Module
unfolding module_with_id
get_module_by_id platform id =
    query λ db. with_uuid platform id λ c. row_or_not_found (module_with_id c db)

unfoldable pub get_module_by_name : String → M Module
get_module_by_name name =
    query λ db. row_or_not_found (find (λ (row : Module). row.name == name) db.modules)

-- `BreakingReportRepository.GetByID`: the report, then its changes, which governance does not read.
unfoldable pub get_breaking_report : Platform → String → M BreakingReport
get_breaking_report platform id = do
  report ← query λ db.
      with_uuid platform id
        λ c. row_or_not_found (find (λ (row : BreakingReport). row.id == c) db.reports)
  query λ db. ok tt
  done report
