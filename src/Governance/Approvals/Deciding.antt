-- ===== src/Governance/Approvals/Deciding.antt =====
-- Who may decide on a requirement: the reads of `recordDecision` on owners and requests.
use proto_radar.Prelude.{
  String, ◌==◌, ◌≡◌, refl, sym, subst, Bool, true, false, Option, some, none, List, [], ◌∷◌, any,
  find, arith, eq_iff, find_passes, Option-cases, inl, inr, ◌&&◌, if◌then◌else◌,
}
use proto_radar.Domain.Errors.{Result, ok, err, governance, GovernanceError}
use proto_radar.Domain.Enums.{ModuleOwnerRole, GovernanceSubjectType, subject_type_eq, role_eq}
use proto_radar.Domain.Records.{ModuleOwner, ApprovalRequest, ApprovalRequirement}
use proto_radar.Store.Db.{Db, Platform, with_uuid}
use proto_radar.Store.Owners.{has_role}
use proto_radar.Store.World.{World, M, ◌>>=◌, done, fail}
use proto_radar.Store.Triples.{
  Outcome, Holds, holds_then, holds_imp, holds_weak, holds_query, holds_fail, holds_map_fault,
}
use proto_radar.Governance.Policy.{PolicyConfig}
use proto_radar.Governance.Approvals.Prepare.{
  get_request_by_requirement, granted, granted_on, deciding_roles, actor_can_decide,
}
use proto_radar.Governance.Approvals.Loaded.{IsLoaded, get_request_by_requirement_id-IsLoaded}

-- A row of module_owners gives the subject, as a user or a team, one of the roles that may decide, on the
-- module that the requirement targets.
pub record MayDecide (platform : Platform) (config : PolicyConfig)
    (requirement : ApprovalRequirement) (actor : String) (db : Db) : Type 0 where
  pub target : String
  pub is_target : requirement.target_module_id ≡ some target
  pub key : String
  pub printed : platform.uuid target ≡ some key
  pub granted :
      any
        (λ (row : ModuleOwner).
          row.module_id == key
          && (row.subject == actor && any (role_eq row.role) (deciding_roles config)))
        db.owners
      ≡ true

of_any_kind :
    (key actor : String) (kind : GovernanceSubjectType) (roles : List ModuleOwnerRole)
    (owners : List ModuleOwner)
    → any
        (λ (row : ModuleOwner).
          row.module_id == key
          && (subject_type_eq row.subject_type kind
              && (row.subject == actor && any (role_eq row.role) roles)))
        owners
      ≡ true
    → any
        (λ (row : ModuleOwner).
          row.module_id == key && (row.subject == actor && any (role_eq row.role) roles))
        owners
      ≡ true
of_any_kind key actor kind roles [] h = h
of_any_kind key actor kind roles (row ∷ rest) h =
    ground (arith, of_any_kind key actor kind roles rest)

may_decide :
    (platform : Platform) (config : PolicyConfig) (requirement : ApprovalRequirement)
    (id actor : String) (kind : GovernanceSubjectType) (db : Db) (b : Bool)
    → requirement.target_module_id ≡ some id
    → with_uuid platform id (λ c. ok (
        any
          (λ (row : ModuleOwner).
            row.module_id == c
            && (subject_type_eq row.subject_type kind
                && (row.subject == actor && any (role_eq row.role) (deciding_roles config))))
          db.owners))
      ≡ ok b
    → b ≡ true
    → MayDecide platform config requirement actor db
may_decide platform config requirement id actor kind db b e h said =
    elim (Option-cases (platform.uuid id)) [
      | inl bad ↦ ground arith
      | inr (c, printed) ↦ record {
        target = id;
        is_target = e;
        key = c;
        printed = printed;
        granted = of_any_kind c actor kind (deciding_roles config) db.owners (ground arith);
      }
    ]

module _ (platform : Platform) (P : Db → Type 0) where
  -- The requirement of the identifier among those of its request.
  abbrev pub IsFound : String → ApprovalRequest × ApprovalRequirement → Db → Type 0
  IsFound id found db =
      P db
      × IsLoaded platform found.0 db
      × (find (λ (r : ApprovalRequirement). r.id == found.1.id) found.0.requirements ≡ some found.1)
      × (found.1.id ≡ id)

  IsFound-find :
      (id : String) (request : ApprovalRequest) (o : Option ApprovalRequirement)
      → find (λ (r : ApprovalRequirement). r.id == id) request.requirements ≡ o
      → Holds
          (λ db. P db × IsLoaded platform request db)
          (elim o as (λ _. M (ApprovalRequest × ApprovalRequirement)) [
            | none ↦ fail (governance GovernanceError.approval_requirement_not_found)
            | some requirement ↦ done (request, requirement)
          ])
          (IsFound id)
          P
  IsFound-find id request none e = holds_weak (λ db p. p.0) (holds_fail _)
  IsFound-find id request (some r) e =
      let same : r.id ≡ id = ground (
        arith,
        eq_iff r.id id,
        find_passes (λ (x : ApprovalRequirement). x.id == id) request.requirements r e,
      ) in
      record {
        runs = λ w p. (
          p.0,
          p.1,
          subst (λ k. find (λ (x : ApprovalRequirement). x.id == k) request.requirements ≡ some r)
              (sym same) e,
          same,
        );
      }

  pub get_request_by_requirement-IsFound :
      (id : String) → Holds P (get_request_by_requirement platform id) (IsFound id) P
  unfolding get_request_by_requirement
  get_request_by_requirement-IsFound id =
      holds_then (holds_map_fault _ (get_request_by_requirement_id-IsLoaded platform P id))
        (λ request. IsFound-find id request _ refl)

  -- A query whose failure counts as no.
  granted_cases :
      (R : Db → Type 0) (r : Result Bool × World)
      → Outcome (λ b db. P db × (b ≡ true → R db)) P r
      → Outcome (λ b db. P db × (b ≡ true → R db)) P (granted_on r)
  granted_cases R (ok b, w) h = h
  granted_cases R (err e, w) h = (h, λ impossible. cc)

  has_role_granted :
      (config : PolicyConfig) (requirement : ApprovalRequirement) (id actor : String)
      (kind : GovernanceSubjectType)
      → requirement.target_module_id ≡ some id
      → Holds P
          (granted (has_role platform id kind actor (deciding_roles config)))
          (λ b db. P db × (b ≡ true → MayDecide platform config requirement actor db))
          P
  unfolding has_role
  has_role_granted config requirement id actor kind e = record {
    runs = λ w p. granted_cases (MayDecide platform config requirement actor) _ (
        (holds_imp (λ db q. q)
            (λ b db q.
              (q.0, λ said. may_decide platform config requirement id actor kind db b e q.1 said))
            (λ db f. f) (holds_query _)).runs
          w p);
  }

  -- A second question after a first one that was answered no.
  either_kind :
      (config : PolicyConfig) (requirement : ApprovalRequirement) (id actor : String)
      (as_user : Bool)
      → requirement.target_module_id ≡ some id
      → Holds
          (λ db. P db × (as_user ≡ true → MayDecide platform config requirement actor db))
          (if as_user
            then done true
            else granted
                (has_role platform id GovernanceSubjectType.team actor (deciding_roles config)))
          (λ b db. P db × (b ≡ true → MayDecide platform config requirement actor db))
          P
  either_kind config requirement id actor true e = record { runs = λ w p. (p.0, λ _. p.1 refl) }
  either_kind config requirement id actor false e =
      holds_imp (λ db p. p.0) (λ b db q. q) (λ db f. f)
        (has_role_granted config requirement id actor GovernanceSubjectType.team e)

  asked_of :
      (config : PolicyConfig) (requirement : ApprovalRequirement) (id actor : String) (empty : Bool)
      → requirement.target_module_id ≡ some id
      → Holds P
          (if empty then done false else (do
            as_user ←
                granted
                  (has_role platform id GovernanceSubjectType.user actor (deciding_roles config))
            if as_user
                then done true
                else granted (
                    has_role platform id GovernanceSubjectType.team actor (deciding_roles config))))
          (λ b db. P db × (b ≡ true → MayDecide platform config requirement actor db))
          P
  asked_of config requirement id actor true e = record { runs = λ w p. (p, λ impossible. cc) }
  asked_of config requirement id actor false e =
      holds_then (has_role_granted config requirement id actor GovernanceSubjectType.user e)
        (λ as_user. either_kind config requirement id actor as_user e)

  asked :
      (config : PolicyConfig) (requirement : ApprovalRequirement) (actor : String)
      (o : Option String)
      → requirement.target_module_id ≡ o
      → Holds P
          (actor_can_decide platform config (record requirement { target_module_id = o }) actor)
          (λ b db. P db × (b ≡ true → MayDecide platform config requirement actor db))
          P
  unfolding actor_can_decide
  asked config requirement actor none e = record { runs = λ w p. (p, λ impossible. cc) }
  asked config requirement actor (some id) e = asked_of config requirement id actor _ e

  -- Who may decide, as the answer of `actorCanDecide`.
  pub actor_can_decide-MayDecide :
      (config : PolicyConfig) (requirement : ApprovalRequirement) (actor : String)
      → Holds P
          (actor_can_decide platform config requirement actor)
          (λ b db. P db × (b ≡ true → MayDecide platform config requirement actor db))
          P
  actor_can_decide-MayDecide config requirement actor =
      asked config requirement actor requirement.target_module_id refl
