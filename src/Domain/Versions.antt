-- ===== src/Domain/Versions.antt =====
-- internal/domain/module_version.go, module_version_status.go and api_token.go.
use proto_radar.Prelude.{String, Bool, true, false, not, Option, none, some, ltb}
use proto_radar.Domain.Records.{Time}

pub data ModuleVersionStatus : Type 0 where
  draft published : ModuleVersionStatus

abbrev pub is_published : ModuleVersionStatus → Bool
is_published ModuleVersionStatus.draft = false
is_published ModuleVersionStatus.published = true

-- `ModuleVersion`, less `PublishedAt`, which no column holds.
pub record ModuleVersion : Type 0 where
  pub id : String
  pub module_id : String
  pub version : String
  pub status : ModuleVersionStatus
  pub digest : String
  pub created_at : Time
  pub deprecated_at : Option Time
  pub deprecated_by : String
  pub deprecation_reason : String

abbrev pub is_deprecated : ModuleVersion → Bool
is_deprecated version = elim version.deprecated_at [ none ↦ false | some at ↦ true ]

pub record ApiToken : Type 0 where
  pub id : String
  pub name : String
  pub token_hash : String
  pub created_at : Time
  pub last_used_at : Option Time
  pub expires_at : Option Time

-- `token.ExpiresAt != nil && !token.ExpiresAt.After(now)`
abbrev pub is_expired : ApiToken → Time → Bool
is_expired token now = elim token.expires_at [ none ↦ false | some at ↦ not (ltb now at) ]
