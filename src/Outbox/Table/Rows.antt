-- ===== src/Outbox/Table/Rows.antt =====
-- What the statements keep of the table: unique identifiers and dedup keys, and rows whose times fit
-- their status.
use proto_radar.Prelude.{
  Option-cases, ℕ, String, ◌==◌, ◌≡◌, refl, ap₂, Bool, true, false, ◌||◌, some, none, List, [], ◌∷◌,
  ◌++◌, map, any, All, All-append, Distinct, Distinct-map-concat, if◌then◌else◌, inl, inr,
  Bool-cases, arith, leb, eqb, subst,
}
use proto_radar.Prelude.Int.{ℤ, nonpos}
use proto_radar.Domain.Errors.{ok}
use proto_radar.Domain.Records.{Time}
use proto_radar.Outbox.Record.{Record, Event, is_processing, is_published}
use proto_radar.Outbox.Table.{
  Table, claim_row, claim_rows, claim_pending, create, new_record, has_id, update_row, publish_row,
  Message, sent_message, stored_text, fail_row, mark_published, mark_failed, update_existing,
}

-- A row in processing has a lease that ends, so that it is claimed again if its publisher dies; any
-- other row has none; a published row has the time of its publication.
pub record IsSound (r : Record) : Type 0 where
  pub leased : is_processing r.status ≡ true → (t : Time) × (r.claim_expires_at ≡ some t)
  pub released : is_processing r.status ≡ false → r.claim_expires_at ≡ none
  pub dated : is_published r.status ≡ true → (t : Time) × (r.published_at ≡ some t)

abbrev ids : Table → List String
ids = map λ (r : Record). r.id

abbrev dedup_keys : Table → List String
dedup_keys = map λ (r : Record). r.dedup_key

pub record IsValid (table : Table) : Type 0 where
  pub unique_ids : Distinct (ids table)
  pub unique_dedup_keys : Distinct (dedup_keys table)
  pub rows : All IsSound table

claim_row-IsSound : (now expires : Time) (r : Record) → IsSound (claim_row now expires r)
unfolding claim_row
claim_row-IsSound now expires r = record {
  leased = λ _. (expires, refl);
  released = λ h. cc;
  dated = λ h. cc;
}

publish_row-IsSound : (now : Time) (r : Record) → IsSound (publish_row now r)
unfolding publish_row
publish_row-IsSound now r = record {
  leased = λ h. cc;
  released = λ _. refl;
  dated = λ _. (_, refl);
}

fail_row-IsSound :
    (message : String) (next now : Time) (max_attempts : ℕ) (r : Record)
    → IsSound (fail_row message next now max_attempts r)
unfolding fail_row
fail_row-IsSound message next now max_attempts r = elim (Bool-cases (leb max_attempts r.attempts)) [
  | inl t ↦ rw t (record { leased = λ h. cc; released = λ _. refl; dated = λ h. cc })
  | inr f ↦ rw f (record { leased = λ h. cc; released = λ _. refl; dated = λ h. cc })
]

-- A statement that rewrites rows one by one and leaves identifiers and dedup keys alone.
pub record IsRewrite (before after : Table) : Type 0 where
  pub same_ids : ids after ≡ ids before
  pub same_dedup_keys : dedup_keys after ≡ dedup_keys before
  pub sound : All IsSound before → All IsSound after

rewrite-IsValid : {before after : Table} → IsRewrite before after → IsValid before → IsValid after
rewrite-IsValid w v = record {
  unique_ids = rw w.same_ids v.unique_ids;
  unique_dedup_keys = rw w.same_dedup_keys v.unique_dedup_keys;
  rows = w.sound v.rows;
}

IsRewrite-nil : IsRewrite [] []
IsRewrite-nil = record { same_ids = refl; same_dedup_keys = refl; sound = λ h. h }

IsRewrite-cons :
    (r s : Record) (before after : Table)
    → s.id ≡ r.id
    → s.dedup_key ≡ r.dedup_key
    → (IsSound r → IsSound s)
    → IsRewrite before after
    → IsRewrite (r ∷ before) (s ∷ after)
IsRewrite-cons r s before after i d f w = record {
  same_ids = ap₂ ◌∷◌ i w.same_ids;
  same_dedup_keys = ap₂ ◌∷◌ d w.same_dedup_keys;
  sound = λ h. (f h.0, w.sound h.1);
}

update_row-IsRewrite :
    (id : String) (f : Record → Record) (table : Table)
    → ((r : Record) → (f r).id ≡ r.id)
    → ((r : Record) → (f r).dedup_key ≡ r.dedup_key)
    → ((r : Record) → IsSound (f r))
    → IsRewrite table (update_row id f table)
unfolding update_row
update_row-IsRewrite id f [] i d s = IsRewrite-nil
update_row-IsRewrite id f (r ∷ rest) i d s = elim (Bool-cases (r.id == id)) [
  | inl t ↦ rw t (
      IsRewrite-cons r (f r) rest (update_row id f rest) (i r) (d r) (λ _. s r)
        (update_row-IsRewrite id f rest i d s))
  | inr n ↦ rw n (
      IsRewrite-cons r r rest (update_row id f rest) refl refl (λ h. h)
        (update_row-IsRewrite id f rest i d s))
]

claim_rows-IsRewrite :
    (chosen : List Record) (now expires : Time) (table : Table)
    → IsRewrite table (claim_rows chosen now expires table)
unfolding claim_rows
claim_rows-IsRewrite chosen now expires [] = IsRewrite-nil
claim_rows-IsRewrite chosen now expires (r ∷ rest) = elim (Bool-cases (has_id r.id chosen)) [
  | inl t ↦ rw t (
      IsRewrite-cons r (claim_row now expires r) rest (claim_rows chosen now expires rest)
        (unfold claim_row in refl) (unfold claim_row in refl) (λ _. claim_row-IsSound now expires r)
        (claim_rows-IsRewrite chosen now expires rest))
  | inr n ↦ rw n (
      IsRewrite-cons r r rest (claim_rows chosen now expires rest) refl refl (λ h. h)
        (claim_rows-IsRewrite chosen now expires rest))
]

pub claim_pending-IsValid :
    (locked : String → Bool) (batch_size lease : ℤ) (now : Time) (table : Table)
    → IsValid table
    → IsValid (claim_pending locked batch_size lease now table).1
unfolding claim_pending
claim_pending-IsValid locked batch_size lease now table v = elim (Bool-cases (nonpos batch_size)) [
  | inl t ↦ rw t v
  | inr f ↦ rw f (rewrite-IsValid (claim_rows-IsRewrite _ now _ table) v)
]

new_record-IsSound : (id : String) (event : Event) (t : Time) → IsSound (new_record id event t)
unfolding new_record
new_record-IsSound id event t = record { leased = λ h. cc; released = λ _. refl; dated = λ h. cc }

pub create-IsValid :
    (id : String) (clock : Time) (event : Event) (table after : Table)
    → IsValid table
    → create id clock event table ≡ ok after
    → IsValid after
unfolding create
create-IsValid id clock event table after v e =
    elim (Bool-cases (any (λ r. r.dedup_key == event.dedup_key) table || has_id id table)) [
      | inl clash ↦ cc (e, clash)
      | inr fresh ↦ subst IsValid (ground arith) (appended fresh)
    ]
  where
    at : Time
    at = if eqb event.occurred_at 0 then clock else event.occurred_at

    appended :
        (any (λ r. r.dedup_key == event.dedup_key) table || has_id id table) ≡ false
        → IsValid (table ++ new_record id event at ∷ [])
    appended fresh = record {
      unique_ids =
          Distinct-map-concat (λ (r : Record). r.id) table _ v.unique_ids
            (unfold new_record in ground arith);
      unique_dedup_keys =
          Distinct-map-concat (λ (r : Record). r.dedup_key) table _ v.unique_dedup_keys
            (unfold new_record in ground arith);
      rows = All-append IsSound table _ v.rows (new_record-IsSound id event at, tt);
    }

update_existing-IsValid :
    (id : String) (f : Record → Record) (table after : Table)
    → ((r : Record) → (f r).id ≡ r.id)
    → ((r : Record) → (f r).dedup_key ≡ r.dedup_key)
    → ((r : Record) → IsSound (f r))
    → IsValid table
    → update_existing id f table ≡ ok after
    → IsValid after
unfolding update_existing
update_existing-IsValid id f table after i d s v e = elim (Bool-cases (has_id id table)) [
  | inl t ↦ subst IsValid (ground arith) (rewrite-IsValid (update_row-IsRewrite id f table i d s) v)
  | inr n ↦ cc (e, n)
]

pub mark_published-IsValid :
    (id : String) (now : Time) (table after : Table)
    → IsValid table
    → mark_published id now table ≡ ok after
    → IsValid after
unfolding mark_published
mark_published-IsValid id now table after v e =
    update_existing-IsValid id (publish_row now) table after (unfold publish_row in λ r. refl)
      (unfold publish_row in λ r. refl) (publish_row-IsSound now) v e

pub mark_failed-IsValid :
    (id : String) (message : Message) (next now : Time) (max_attempts : ℕ) (table after : Table)
    → IsValid table
    → mark_failed id message next now max_attempts table ≡ ok after
    → IsValid after
unfolding mark_failed
mark_failed-IsValid id message next now max_attempts table after v e =
    elim (Option-cases (stored_text (sent_message message))) [
      | inl refused ↦ ground (arith, refused, e)
      | inr (text, stored) ↦
          update_existing-IsValid id (fail_row text next now max_attempts) table after
            (unfold fail_row in λ r. refl) (unfold fail_row in λ r. refl)
            (fail_row-IsSound text next now max_attempts) v (ground (arith, stored, e))
    ]

-- One statement of any writer or publisher on the table, in any order.
pub data Step (before : Table) : Table → Type 0 where
  creates :
      (id : String) (clock : Time) (event : Event) {after : Table}
      → create id clock event before ≡ ok after
      → Step before after
  claims :
      (locked : String → Bool) (batch_size lease : ℤ) (now : Time)
      → Step before (claim_pending locked batch_size lease now before).1
  publishes :
      (id : String) (now : Time) {after : Table}
      → mark_published id now before ≡ ok after
      → Step before after
  fails :
      (id : String) (message : Message) (next now : Time) (max_attempts : ℕ) {after : Table}
      → mark_failed id message next now max_attempts before ≡ ok after
      → Step before after

pub data Reach (start : Table) : Table → Type 0 where
  here : Reach start start
  then_step : {table after : Table} → Reach start table → Step table after → Reach start after

pub Step-IsValid : {before after : Table} → Step before after → IsValid before → IsValid after
Step-IsValid {before} (creates id clock event e) v = create-IsValid id clock event before _ v e
Step-IsValid {before} (claims locked batch_size lease now) v =
    claim_pending-IsValid locked batch_size lease now before v
Step-IsValid {before} (publishes id now e) v = mark_published-IsValid id now before _ v e
Step-IsValid {before} (fails id message next now max_attempts e) v =
    mark_failed-IsValid id message next now max_attempts before _ v e

-- Whatever statements any number of writers and publishers run, starting from the empty table:
-- identifiers and dedup keys stay unique, a row in processing has a lease that ends and no other row
-- has one, and a published row has the time of its publication.
pub Reach-IsValid : {table : Table} → Reach [] table → IsValid table
Reach-IsValid here = record { unique_ids = tt; unique_dedup_keys = tt; rows = tt }
Reach-IsValid (then_step r s) = Step-IsValid s (Reach-IsValid r)
