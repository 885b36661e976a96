-- ===== src/Walk.antt =====
-- The queue loop that closure/closure.go (`Closure`) and closure/safe.go (`ownedSubtree`) share: a
-- breadth-first walk with a visited set of keys. Fuel counts the elements that are expanded, since
-- a skipped element only shortens the queue.
pub mod Rule
pub mod Ends
pub mod Reach
use krsm.Prelude.{
  ℕ, zero, suc, String, Bool, true, false, Option, none, some, List, [], ◌∷◌, ◌++◌, map, has_key,
}

module _ {A : Type 0} (key : A → String) (expand : A → List A) where
  -- `seen` lists the visited elements, the last one first. `none`: the fuel ran out.
  unfoldable pub walk : ℕ → List A → List A → Option (List A)
  walk fuel [] seen = some seen
  walk zero (cur ∷ queue) seen = elim (has_key (map key seen) (key cur)) [
    | true ↦ walk zero queue seen
    | false ↦ none
  ]
  walk (suc fuel) (cur ∷ queue) seen = elim (has_key (map key seen) (key cur)) [
    | true ↦ walk (suc fuel) queue seen
    | false ↦ walk fuel (queue ++ expand cur) (cur ∷ seen)
  ]
