-- ===== src/Domain/Ids.antt =====
-- internal/domain/ids.go: an identifier is a text without spaces at its ends. Every `New…ID` there
-- has the same body.
use proto_radar.Prelude.{String, trim_space}

unfoldable pub new_module_id : String → String
new_module_id value = trim_space value

unfoldable pub new_breaking_report_id : String → String
new_breaking_report_id value = trim_space value

unfoldable pub new_module_owner_id : String → String
new_module_owner_id value = trim_space value

unfoldable pub new_approval_request_id : String → String
new_approval_request_id value = trim_space value

unfoldable pub new_approval_requirement_id : String → String
new_approval_requirement_id value = trim_space value

unfoldable pub new_approval_decision_id : String → String
new_approval_decision_id value = trim_space value

unfoldable pub new_governance_audit_event_id : String → String
new_governance_audit_event_id value = trim_space value
