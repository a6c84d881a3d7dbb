-- ===== src/Inventory/References.antt =====
-- internal/usecase/runtimeinventory/service.go, reportedModuleReferences: the modules that a report
-- names, each once.
pub mod Reported
use Prim.Native.String.{◌++◌ as append}
use proto_radar.Prelude.{
  String, ◌==◌, Bool, true, false, List, [], ◌∷◌, any, mem_text, if◌then◌else◌,
}
use proto_radar.Domain.Errors.{Result, ok, err, runtime_modules_required, ◌>>=◌}
use proto_radar.Domain.Names.{new_module_name, new_version}

pub record ReportedModuleInput : Type 0 where
  pub module_name : String
  pub version : String

pub record ReportedModuleReference : Type 0 where
  pub module_name : String
  pub version : String

unfoldable pub reference_key : ReportedModuleReference → String
reference_key r = append r.module_name (append "\0" r.version)

-- The loop; `seen` holds the keys so far.
pub references_from : List String → List ReportedModuleInput → Result (List ReportedModuleReference)
unfolding reference_key
references_from seen [] = ok []
references_from seen (input ∷ rest) = new_module_name input.module_name >>= λ name.
    new_version input.version >>= λ version.
    let r : ReportedModuleReference = record { module_name = name; version = version } in
    elim (mem_text (reference_key r) seen) [
      | true ↦ references_from seen rest
      | false ↦ references_from (reference_key r ∷ seen) rest >>= λ more. ok (r ∷ more)
    ]

abbrev pub some_references : List ReportedModuleReference → Result (List ReportedModuleReference)
some_references [] = err runtime_modules_required
some_references (r ∷ rest) = ok (r ∷ rest)

unfoldable pub reported_module_references :
    List ReportedModuleInput → Result (List ReportedModuleReference)
unfolding references_from
reported_module_references [] = err runtime_modules_required
reported_module_references (input ∷ rest) = references_from [] (input ∷ rest) >>= some_references
