-- ===== src/Outbox/Table/Claims.antt =====
-- `ClaimPending`: what it selects, and that a claimed row is left alone until its lease runs out.
use proto_radar.Prelude.{
  Among, Option, none, ◌⊎◌, ◌+◌, ℕ, ◌≤◌, ◌<◌, String, ◌==◌, ◌≡◌, refl, ap, ◌∙◌, Bool, true, false,
  not, ◌&&◌, ◌||◌, List, [], ◌∷◌, some, map, All-take, All-filter, All-map, All-always, All-imp,
  length, length-map, length-take-le, All, inl, inr, Bool-cases, arith,
}
use proto_radar.Prelude.Int.{ℤ, nonpos, to_ℕ}
use proto_radar.Domain.Records.{Time}
use proto_radar.Outbox.Record.{Record, OutboxStatus}
use proto_radar.Outbox.Table.{
  Table, add_duration, claimable, insert_due, sort_due, claim_row, due, has_id, claim_rows,
  claim_pending, due_before, expired, claimable_status,
}

module _ {ℓ} (P : Record → Type ℓ) where
  All-insert_due : (r : Record) (rest : List Record) → P r → All P rest → All P (insert_due r rest)
  unfolding insert_due
  All-insert_due r [] p h = (p, tt)
  All-insert_due r (s ∷ rest) p h = elim (Bool-cases (due_before r s)) [
    | inl t ↦ rw t (p, h)
    | inr f ↦ rw f (h.0, All-insert_due r rest p h.1)
  ]

  All-sort_due : (rs : List Record) → All P rs → All P (sort_due rs)
  unfolding sort_due
  All-sort_due [] h = tt
  All-sort_due (r ∷ rs) h = All-insert_due r (sort_due rs) h.0 (All-sort_due rs h.1)

  pub All-due :
      (locked : String → Bool) (n : ℕ) (now : Time) (table : Table)
      → All (λ r. (claimable now r && not (locked r.id)) ≡ true → P r) table
      → All P (due locked n now table)
  unfolding due
  All-due locked n now table h = All-take P n _ (All-sort_due _ (All-filter P _ table h))

-- Waiting or failed, and available; or in processing, under a lease that is over.
abbrev pub WasDue : Time → Record → Type 0
WasDue now r =
    (((r.status ≡ OutboxStatus.pending) ⊎ (r.status ≡ OutboxStatus.failed))
      × (r.available_at ≤ now))
    ⊎ ((r.status ≡ OutboxStatus.processing)
        × ((expires : Time) × (r.claim_expires_at ≡ some expires) × (expires ≤ now)))

lease_over :
    (at : Option Time) (now : Time)
    → expired at now ≡ true
    → (expires : Time) × (at ≡ some expires) × (expires ≤ now)
lease_over none now h = cc
lease_over (some at) now h = (at, refl, ground (arith, h))

status-WasDue :
    (now : Time) (r : Record) (s : OutboxStatus)
    → r.status ≡ s
    → claimable_status s r now ≡ true
    → WasDue now r
status-WasDue now r OutboxStatus.pending e h = inl (inl e, ground (arith, h))
status-WasDue now r OutboxStatus.failed e h = inl (inr e, ground (arith, h))
status-WasDue now r OutboxStatus.processing e h = inr (e, lease_over r.claim_expires_at now h)
status-WasDue now r OutboxStatus.published e h = cc
status-WasDue now r OutboxStatus.dead e h = cc

claimable-WasDue : (now : Time) (r : Record) → claimable now r ≡ true → WasDue now r
unfolding claimable
claimable-WasDue now r h = status-WasDue now r r.status refl h

-- A row of the table that was due and free.
abbrev IsDueIn : (String → Bool) → Time → Table → Record → Type 0
IsDueIn locked now table r = Among (λ q. q ≡ r) table × WasDue now r × (locked r.id ≡ false)

-- What a claim makes of a row of the table that was due and that nobody held: it is in processing under
-- a lease, with one more attempt than before, and otherwise as it was.
pub record IsClaimed (locked : String → Bool) (lease : ℤ) (now : Time) (table : Table) (r : Record)
    : Type 0 where
  pub before : Record
  pub was_due : IsDueIn locked now table before
  pub columns : r ≡ record before {
    status = OutboxStatus.processing;
    claimed_at = some now;
    claim_expires_at = some (add_duration now lease);
    attempts = before.attempts + 1;
    updated_at = now;
  }

claim_row-IsClaimed :
    (locked : String → Bool) (lease : ℤ) (now : Time) (table : Table) (r : Record)
    → IsDueIn locked now table r
    → IsClaimed locked lease now table (claim_row now (add_duration now lease) r)
unfolding claim_row
claim_row-IsClaimed locked lease now table r h = record { before = r; was_due = h; columns = refl }

members : (table : Table) → All (λ r. Among (λ q. q ≡ r) table) table
members [] = tt
members (r ∷ rest) = (inl refl, All-imp _ _ (λ s h. inr h) rest (members rest))

due_in :
    (locked : String → Bool) (n : ℕ) (now : Time) (table : Table)
    → All (IsDueIn locked now table) (due locked n now table)
due_in locked n now table = All-due (IsDueIn locked now table) locked n now table (
    All-imp _ _ (λ r m passes. (m, claimable-WasDue now r (ground arith), ground arith)) table
      (members table))

length-due :
    (locked : String → Bool) (n : ℕ) (now : Time) (table : Table)
    → length (due locked n now table) ≤ n
unfolding due
length-due locked n now table = length-take-le n _

-- A claim returns at most `batch_size` rows. Each is a row of the table that was due, being available or
-- under a lease that is over, and that no other transaction held: it is now in processing, under a lease
-- from now, with one more attempt than before, and otherwise as it was.
pub claim_pending_rows :
    (locked : String → Bool) (batch_size lease : ℤ) (now : Time) (table : Table)
    → let claimed = (claim_pending locked batch_size lease now table).0 in
      (length claimed ≤ to_ℕ batch_size) × All (IsClaimed locked lease now table) claimed
unfolding claim_pending
claim_pending_rows locked batch_size lease now table = elim (Bool-cases (nonpos batch_size)) [
  | inl none_wanted ↦ rw none_wanted (omega arith, tt)
  | inr wanted ↦ rw wanted (
    rw (length-map _ _) (length-due locked (to_ℕ batch_size) now table),
    All-map (IsDueIn locked now table) (IsClaimed locked lease now table)
        (claim_row now (add_duration now lease)) (claim_row-IsClaimed locked lease now table)
        (due locked (to_ℕ batch_size) now table) (due_in locked (to_ℕ batch_size) now table),
  )
]

-- A row that the first claim took is not due again before its lease is over.
later_due :
    (chosen : List Record) (now expires later : Time) (table : Table)
    → later < expires
    → All
        (λ (r : Record). claimable later r ≡ true → has_id r.id chosen ≡ false)
        (claim_rows chosen now expires table)
unfolding claim_rows
later_due chosen now expires later [] early = tt
later_due chosen now expires later (r ∷ rest) early = elim (Bool-cases (has_id r.id chosen)) [
  | inl taken ↦ rw taken (
    unfold claimable claim_row in λ h. ground arith,
    later_due chosen now expires later rest early,
  )
  | inr free ↦ rw free (λ _. free, later_due chosen now expires later rest early)
]

has_id-map-claim_row :
    (id : String) (now expires : Time) (rs : List Record)
    → has_id id (map (claim_row now expires) rs) ≡ has_id id rs
unfolding claim_row
has_id-map-claim_row id now expires [] = refl
has_id-map-claim_row id now expires (r ∷ rs) =
    ap (λ b. r.id == id || b) (has_id-map-claim_row id now expires rs)

-- The rows whose identifier the first claim did not return.
abbrev pub IsFreshFor : List Record → Record → Type 0
IsFreshFor claimed r = has_id r.id claimed ≡ false

fresh_again :
    (locked : String → Bool) (n : ℕ) (chosen : List Record) (now expires later until : Time)
    (table : Table)
    → later < expires
    → All
        (IsFreshFor (map (claim_row now expires) chosen))
        (map (claim_row later until) (due locked n later (claim_rows chosen now expires table)))
unfolding claim_row
fresh_again locked n chosen now expires later until table early =
    All-map (λ (r : Record). has_id r.id chosen ≡ false)
      (IsFreshFor (map (claim_row now expires) chosen)) (claim_row later until)
      (λ r h. has_id-map-claim_row r.id now expires chosen ∙ h) _
      (All-due _ locked n later _ (
        All-imp _ _ (λ r f passes. f (ground arith)) _
          (later_due chosen now expires later table early)))

-- A claim made before the leases of an earlier claim run out, on the table that the earlier one left,
-- returns none of the rows that the earlier one returned.
pub claim_pending_exclusive :
    (locked locked' : String → Bool) (batch batch' lease lease' : ℤ) (now later : Time)
    (table : Table)
    → later < add_duration now lease
    → let (first, between) = claim_pending locked batch lease now table in
      All (IsFreshFor first) (claim_pending locked' batch' lease' later between).0
unfolding claim_pending
claim_pending_exclusive locked locked' batch batch' lease lease' now later table early =
    elim (Bool-cases (nonpos batch')) [
      | inl none_wanted ↦ rw none_wanted tt
      | inr wanted' ↦ elim (Bool-cases (nonpos batch)) [
        | inl none_wanted ↦ rw (none_wanted, wanted') (All-always _ (λ r. refl) _)
        | inr wanted ↦
            rw (wanted, wanted')
              (fresh_again locked' (to_ℕ batch') (due locked (to_ℕ batch) now table) now
                (add_duration now lease) later (add_duration later lease') table early)
      ]
    ]
