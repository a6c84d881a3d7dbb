-- ===== src/Governance/Owners/Atomic.antt =====
-- Adding and removing an owner happens as a whole or not at all.
use proto_radar.Prelude.{String, ◌≡◌, refl}
use proto_radar.Domain.Errors.{Err, err}
use proto_radar.Domain.Records.{Time, ModuleOwner}
use proto_radar.Store.Db.{Db, Platform}
use proto_radar.Store.Modules.{get_module_by_name}
use proto_radar.Store.Owners.{get_owner}
use proto_radar.Store.World.{World}
use proto_radar.Store.Triples.{
  Holds, holds_then, holds_map_fault, holds_within_transaction, holds_random_hex, Keeps-query,
  then_require, then_lift, outcome_err, anything,
}
use proto_radar.Governance.Owners.{
  add_owner_and_announce, remove_owner_and_announce, AddModuleOwnerInput, RemoveModuleOwnerInput,
  store_owner, add_module_owner, drop_owner, remove_module_owner,
}

module _ (platform : Platform) (before : Db) where
  abbrev Same : Db → Type 0
  Same db = db ≡ before

  stores :
      (owner : ModuleOwner) (actor : String) (now : Time)
      → Holds Same (store_owner platform owner actor now) (λ _ _. Unit) Same
  unfolding store_owner
  stores owner actor now =
      holds_within_transaction (λ _. add_owner_and_announce platform owner actor now) anything

  drops :
      (owner : ModuleOwner) (actor : String) (now : Time)
      → Holds Same (drop_owner platform owner actor now) (λ _ _. Unit) Same
  unfolding drop_owner
  drops owner actor now =
      holds_within_transaction (λ _. remove_owner_and_announce platform owner actor now) anything

  adds :
      (input : AddModuleOwnerInput) (now : Time)
      → Holds Same (add_module_owner platform input now) (λ _ _. Unit) Same
  unfolding add_module_owner get_module_by_name
  adds input now =
      then_lift _ _ (λ db p. p)
        (λ name _.
          then_lift _ _ (λ db p. p)
            (λ kind _.
              then_require _ _ _ (λ db p. p)
                (λ _.
                  then_lift _ _ (λ db p. p)
                    (λ role _.
                      then_lift _ _ (λ db p. p)
                        (λ actor _. holds_then (holds_map_fault _ (Keeps-query _)) (λ row.
                          holds_then holds_random_hex (λ id.
                            then_lift _ _ (λ db p. p)
                              (λ _ _.
                                holds_then (stores _ actor now)
                                  (λ _. record { runs = λ w p. tt })))))))))

  removes :
      (input : RemoveModuleOwnerInput) (now : Time)
      → Holds Same (remove_module_owner platform input now) (λ _ _. Unit) Same
  unfolding remove_module_owner get_module_by_name get_owner
  removes input now =
      then_lift _ _ (λ db p. p)
        (λ name _.
          then_require _ _ _ (λ db p. p)
            (λ _.
              then_lift _ _ (λ db p. p)
                (λ actor _. holds_then (holds_map_fault _ (Keeps-query _)) (λ row.
                  holds_then (holds_map_fault _ (Keeps-query _))
                    (λ owner. then_require _ _ _ (λ db p. p) (λ _. drops _ actor now))))))

-- If adding an owner returns an error, the whole database is as before.
pub add_module_owner_atomic :
    (platform : Platform) (input : AddModuleOwnerInput) (now : Time) (w : World) (e : Err)
    → (add_module_owner platform input now w).0 ≡ err e
    → (add_module_owner platform input now w).1.db ≡ w.db
add_module_owner_atomic platform input now w e h =
    outcome_err (λ _ _. Unit) (λ db. db ≡ w.db) (add_module_owner platform input now w) e
      ((adds platform w.db input now).runs w refl) h

-- If removing an owner returns an error, the whole database is as before.
pub remove_module_owner_atomic :
    (platform : Platform) (input : RemoveModuleOwnerInput) (now : Time) (w : World) (e : Err)
    → (remove_module_owner platform input now w).0 ≡ err e
    → (remove_module_owner platform input now w).1.db ≡ w.db
remove_module_owner_atomic platform input now w e h =
    outcome_err (λ _ _. Unit) (λ db. db ≡ w.db) (remove_module_owner platform input now w) e
      ((removes platform w.db input now).runs w refl) h
