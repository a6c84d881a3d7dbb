-- ===== src/Domain/Samples.antt =====
-- The theorems on names and enumerations at concrete inputs.
use proto_radar.Prelude.{◌≡◌, ◌≢◌, ◌↔◌, refl, true, String, trim_space, all_codes}
use proto_radar.Domain.Errors.{ok}
use proto_radar.Domain.Names.{is_module_name_char, new_module_name}
use proto_radar.Domain.Names.Acceptance.{new_module_name_sound}
use proto_radar.Domain.Enums.{ApprovalRequestStatus, new_approval_request_status}
use proto_radar.Domain.Enums.Parsing.{new_approval_request_status_iff}

new_module_name_sound_example :
    (◌≡◌ {A = String} "user-api" (trim_space " user-api "))
    × (◌≢◌ {A = String} "user-api" "")
    × (all_codes is_module_name_char "user-api" ≡ true)
    × (new_module_name "user-api" ≡ ok "user-api")
unfolding new_module_name trim_space is_module_name_char
new_module_name_sound_example = new_module_name_sound " user-api " "user-api" refl

new_approval_request_status_iff_example :
    (new_approval_request_status " approved" ≡ ok ApprovalRequestStatus.approved)
    ↔ (trim_space " approved" ≡ "approved")
new_approval_request_status_iff_example =
    new_approval_request_status_iff " approved" ApprovalRequestStatus.approved
