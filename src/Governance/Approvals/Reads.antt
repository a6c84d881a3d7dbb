-- ===== src/Governance/Approvals/Reads.antt =====
-- What CreateApprovalRequestForBreakingReport reads before its transaction.
use proto_radar.Prelude.{
  ℕ, String, ◌==◌, ◌≡◌, some, List, [], ◌∷◌, inl, inr, Bool-cases, Option-cases,
}
use proto_radar.Domain.Records.{BreakingReport, RuntimeImpact, AffectedModule}
use proto_radar.Store.Db.{Db, Platform}
use proto_radar.Store.World.{M, done}
use proto_radar.Store.Modules.{get_breaking_report, get_module_by_id, get_module_by_name}
use proto_radar.Store.Owners.{list_owners}
use proto_radar.Store.Approvals.{
  get_request_by_breaking_report_id, populate_request, list_requirements, list_decisions,
}
use proto_radar.Store.Triples.{Keeps, holds_then, holds_map_fault, Keeps-query, Keeps-done}
use proto_radar.Store.Triples.Lookups.{found, listed, reads, optional-Keeps}
use proto_radar.Governance.Approvals.Context.{
  Providers, affected_modules, runtime_impact, policy_affected_module, policy_affected_modules,
  default_approval_list_limit, approval_policy_context_for_report,
}

-- The providers, which only read: the database is as they found it.
pub record ReadOnly (providers : Providers) : Type 0 where
  pub affected :
      (list : String → M (List AffectedModule))
      → providers.affected ≡ some list
      → (id : String) (before : Db) → Keeps (λ db. db ≡ before) (list id)
  pub runtime :
      (list : String → String → ℕ → ℕ → M (List RuntimeImpact))
      → providers.runtime ≡ some list
      → (report_id base : String) (limit offset : ℕ) (before : Db)
      → Keeps (λ db. db ≡ before) (list report_id base limit offset)

module _ (P : Db → Type 0) where
  module _ (platform : Platform) where
    pub existing-Keeps : (id : String) → Keeps P (get_request_by_breaking_report_id platform id)
    unfolding get_request_by_breaking_report_id populate_request list_requirements list_decisions
    existing-Keeps id = holds_then (Keeps-query _) (λ request.
        holds_then (Keeps-query _)
          (λ requirements. holds_then (Keeps-query _) (λ decisions. Keeps-done _)))

    affected_module-Keeps : (item : AffectedModule) → Keeps P (policy_affected_module platform item)
    unfolding policy_affected_module get_module_by_name list_owners
    affected_module-Keeps item = holds_then (found P (Keeps-query _)) (λ row.
        optional-Keeps P row (done _) _ (Keeps-done _)
          (λ m. holds_then (listed P (Keeps-query _)) (λ owners. Keeps-done _)))

    affected_modules_keep :
        (items : List AffectedModule) → Keeps P (policy_affected_modules platform items)
    unfolding policy_affected_modules
    affected_modules_keep [] = Keeps-done []
    affected_modules_keep (item ∷ rest) =
        holds_then (affected_module-Keeps item)
          (λ affected. holds_then (affected_modules_keep rest) (λ more. Keeps-done _))

    provided_modules_keep :
        (providers : Providers) (id : String)
        → ReadOnly providers
        → Keeps P (affected_modules providers id)
    unfolding affected_modules
    provided_modules_keep providers id h = elim (Option-cases providers.affected) [
      | inl nil ↦ rw nil (Keeps-done [])
      | inr (list, e) ↦ rw e (listed P (reads P (h.affected list e id)))
    ]

    runtime_impact-Keeps :
        (providers : Providers) (report : BreakingReport)
        → ReadOnly providers
        → Keeps P (runtime_impact providers report)
    unfolding runtime_impact
    runtime_impact-Keeps providers report h = elim (Option-cases providers.runtime) [
      | inl nil ↦ rw nil (Keeps-done [])
      | inr (list, e) ↦ elim (Bool-cases (report.base_version_id == "")) [
        | inl first ↦ rw (e, first) (Keeps-done [])
        | inr later ↦
            rw (e, later)
              (listed P (
                reads P (
                  h.runtime list e report.id report.base_version_id default_approval_list_limit 0)))
      ]
    ]

    pub context-Keeps :
        (providers : Providers) (report_id : String)
        → ReadOnly providers
        → Keeps P (approval_policy_context_for_report platform providers report_id)
    unfolding approval_policy_context_for_report get_breaking_report get_module_by_id list_owners
    context-Keeps providers report_id h =
        holds_then
          (holds_map_fault _
            (holds_then (Keeps-query _) (λ report. holds_then (Keeps-query _) (λ _. Keeps-done _))))
          (λ report. holds_then (holds_map_fault _ (Keeps-query _)) (λ changed.
            holds_then (listed P (Keeps-query _)) (λ owners.
              holds_then (provided_modules_keep providers report.module_id h) (λ affected.
                holds_then (runtime_impact-Keeps providers report h) (λ impact.
                  holds_then (affected_modules_keep affected) (λ consumers. Keeps-done _))))))
