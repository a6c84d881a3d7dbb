-- ===== src/Store/Triples/Each.antt =====
-- Triples on a loop of inserts.
use proto_radar.Prelude.{◌≡◌, sym, ◌∙◌, List, [], ◌∷◌, Paired}
use proto_radar.Store.Db.{Db}
use proto_radar.Store.World.{M, each}
use proto_radar.Store.Triples.{Holds, holds_then, holds_imp}
use proto_radar.Store.Triples.Lookups.{holds_some}

-- The rows that a loop of inserts adds, in the order of what it inserts; nothing else changed.
pub record AreInserted {A Row : Type 0} (IsRow : A → Row → Type 0) (with_rows : List Row → Db → Db)
    (inserted : List A) (before after : Db) : Type 0 where
  pub rows : List Row
  pub columns : Paired IsRow inserted rows
  pub is_after : after ≡ with_rows rows before

module _ {A Row : Type 0} (IsRow : A → Row → Type 0) (with_rows : List Row → Db → Db)
    (with_none : (db : Db) → with_rows [] db ≡ db)
    (with_more : (row : Row) (rows : List Row) (db : Db)
      → with_rows rows (with_rows (row ∷ []) db) ≡ with_rows (row ∷ rows) db)
    (create : A → M (Unit {0}))
    (one : (a : A) (before : Db)
      → Holds
          (λ db. db ≡ before)
          (create a)
          (λ _ after. (row : Row) × IsRow a row × (after ≡ with_rows (row ∷ []) before))
          (λ _. Unit)) where
  pub each-AreInserted :
      (inserted : List A) (before : Db)
      → Holds
          (λ db. db ≡ before)
          (each create inserted)
          (λ _. AreInserted IsRow with_rows inserted before)
          (λ _. Unit)
  unfolding each
  each-AreInserted [] before = record {
    runs = λ w e. record { rows = []; columns = tt; is_after = e ∙ sym (with_none before) };
  }
  each-AreInserted (a ∷ rest) before = holds_then (one a before) (λ _. holds_some (λ row added.
      holds_imp (λ db e. e)
        (λ _ after h. record {
          rows = row ∷ h.rows;
          columns = (added, h.columns);
          is_after = h.is_after ∙ with_more row h.rows before;
        })
        (λ db e. e) (each-AreInserted rest (with_rows (row ∷ []) before))))
