-- ===== src/Store/Plain.antt =====
-- Where the tests start: a database without rows, and a platform that prints every text as it is.
use proto_radar.Prelude.{some, [], refl}
use proto_radar.Store.Db.{Db, Platform}

abbrev pub empty_db : Db
empty_db = record {
  modules = [];
  versions = [];
  tokens = [];
  services = [];
  deployments = [];
  usages = [];
  dependencies = [];
  unresolved = [];
  reports = [];
  owners = [];
  requests = [];
  requirements = [];
  decisions = [];
  audit = [];
  outbox = [];
}

abbrev pub plain_platform : Platform
plain_platform = record {
  uuid = λ s. some s;
  uuid_printed = λ s c h. refl;
  rfc3339 = λ t. "2026-01-01T00:00:00Z";
}
