-- ===== src/Governance/Approvals/Loaded.antt =====
-- What a request that was read says of the tables: its row, and its requirements and decisions.
use proto_radar.Prelude.{
  String, ◌==◌, ◌≡◌, refl, sym, ap, subst, ◌∙◌, Option, some, none, List, find, arith, eq_iff,
  find_passes, Option-cases, inl, inr,
}
use proto_radar.Prelude.Sort.{sort_by}
use proto_radar.Domain.Errors.{ok}
use proto_radar.Domain.Records.{ApprovalRequest, ApprovalRequirement, ApprovalDecision}
use proto_radar.Store.Db.{Db, RequestRow, Platform, with_uuid}
use proto_radar.Store.Approvals.{
  requirements_of, requirement_le, decisions_of, decision_le, request_with_id, scan_request,
  join_module, request_of_requirement, list_requirements, list_decisions, populate_request,
  get_request_by_requirement_id,
}
use proto_radar.Store.Triples.{Holds, holds_then, holds_imp, holds_query, holds_done}

-- The row behind a request.
pub record HasRow (request : ApprovalRequest) (db : Db) : Type 0 where
  pub row : RequestRow
  pub found : request_with_id request.id db ≡ some row
  pub status : request.status ≡ row.status

pub record IsLoaded (platform : Platform) (request : ApprovalRequest) (db : Db) : Type 0 where
  pub row : HasRow request db
  pub key : String
  pub printed : platform.uuid request.id ≡ some key
  pub requirements :
      request.requirements ≡ sort_by requirement_le (requirements_of key db.requirements)
  pub decisions : request.decisions ≡ sort_by decision_le (decisions_of key db.decisions)

join_module_ok :
    (db : Db) (o : Option RequestRow) (request : ApprovalRequest)
    → join_module db o ≡ ok request
    → (row : RequestRow) × (o ≡ some row) × (request.id ≡ row.id) × (request.status ≡ row.status)
unfolding join_module scan_request
join_module_ok db none request h = cc
join_module_ok db (some row) request h = (row, refl, ground arith, ground arith)

request_with_id_key :
    (id : String) (db : Db) (row : RequestRow) → request_with_id id db ≡ some row → id ≡ row.id
request_with_id_key id db row h =
    ground (arith, eq_iff row.id id, find_passes (λ (r : RequestRow). r.id == id) db.requests row h)

of_requirement_ok :
    (id : String) (db : Db) (row : RequestRow)
    → request_of_requirement id db ≡ some row
    → (x : String) × (request_with_id x db ≡ some row)
unfolding request_of_requirement
of_requirement_ok id db row h =
    elim (Option-cases (find (λ (r : ApprovalRequirement). r.id == id) db.requirements)) [
      | inl missing ↦ ground arith
      | inr (r, found) ↦ (r.approval_request_id, ground arith)
    ]

joined_requirement :
    (platform : Platform) (id : String) (db : Db) (request : ApprovalRequest)
    → with_uuid platform id (λ c. join_module db (request_of_requirement c db)) ≡ ok request
    → HasRow request db
joined_requirement platform id db request h = elim (Option-cases (platform.uuid id)) [
  | inl bad ↦ ground arith
  | inr (c, printed) ↦
      let (row, found, same, status) =
        join_module_ok db (request_of_requirement c db) request (ground arith) in
      let (x, at_x) = of_requirement_ok c db row found in
      record {
        row = row;
        found =
            subst (λ k. request_with_id k db ≡ some row)
              (request_with_id_key x db row at_x ∙ sym same) at_x;
        status = status;
      }
]

listed :
    {A : Type 0} (platform : Platform) (id : String) (f : String → List A) (list : List A)
    → with_uuid platform id (λ c. ok (f c)) ≡ ok list
    → (c : String) × (platform.uuid id ≡ some c) × (list ≡ f c)
listed platform id f list h = elim (Option-cases (platform.uuid id)) [
  | inl bad ↦ ground arith
  | inr (c, printed) ↦ (c, printed, ground arith)
]

populated_loads :
    (platform : Platform) (db : Db) (request : ApprovalRequest)
    (requirements : List ApprovalRequirement) (decisions : List ApprovalDecision)
    → HasRow request db
    → with_uuid platform request.id
        (λ c. ok (sort_by requirement_le (requirements_of c db.requirements)))
      ≡ ok requirements
    → with_uuid platform request.id (λ c. ok (sort_by decision_le (decisions_of c db.decisions)))
      ≡ ok decisions
    → IsLoaded platform (record request { requirements = requirements; decisions = decisions }) db
populated_loads platform db request requirements decisions row e f =
    let (c, printed, rs) =
      listed platform request.id (λ c. sort_by requirement_le (requirements_of c db.requirements))
        requirements e in
    let (d, also, ds) =
      listed platform request.id (λ c. sort_by decision_le (decisions_of c db.decisions)) decisions
        f in
    let same : d ≡ c = ground arith in
    record {
      row = record { row = row.row; found = row.found; status = row.status };
      key = c;
      printed = printed;
      requirements = rs;
      decisions = ds ∙ ap (λ k. sort_by decision_le (decisions_of k db.decisions)) same;
    }

module _ (platform : Platform) (P : Db → Type 0) where
  populated :
      (request : ApprovalRequest)
      → Holds
          (λ db. P db × HasRow request db)
          (populate_request platform request)
          (λ full db. P db × IsLoaded platform full db)
          P
  unfolding populate_request list_requirements list_decisions
  populated request =
      (holds_then (holds_imp (λ db p. p) (λ a db q. q) (λ db e. e.0) (holds_query _))
        (λ requirements.
          holds_then (holds_imp (λ db p. p) (λ a db q. q) (λ db e. e.0.0) (holds_query _))
            (λ decisions.
              holds_imp (λ db p. p)
                (λ a db q.
                  subst (λ full. P db × IsLoaded platform full db) q.1
                    (
                      q.0.0.0.0,
                      populated_loads platform db request requirements decisions q.0.0.0.1 q.0.0.1
                          q.0.1,
                    ))
                (λ db e. e.0.0.0) (holds_done _))))

  pub get_request_by_requirement_id-IsLoaded :
      (id : String)
      → Holds P
          (get_request_by_requirement_id platform id)
          (λ request db. P db × IsLoaded platform request db)
          P
  unfolding get_request_by_requirement_id
  get_request_by_requirement_id-IsLoaded id = holds_then (holds_query _) (λ request.
      holds_imp (λ db q. (q.0, joined_requirement platform id db request q.1)) (λ a db q. q)
        (λ db e. e) (populated request))
