-- ===== src/Closure/Keys.antt =====
-- The keys of references (`key` of closure/model.go), and a test of distinct keys that runs.
use krsm.Prelude.{
  String, Bool, true, not, ◌&&◌, List, [], ◌∷◌, map, ◌≡◌, sym, inl, inr, arith, ◌∈◌,
  Distinct-map_injective, Distinct, has_key, has_key_iff, subst,
}
use krsm.Model.{Ref, key}
use krsm.Closure.Relation.{Identified}

-- A test of distinctness that runs.
unfoldable pub are_distinct : List String → Bool
unfolding has_key
are_distinct [] = true
are_distinct (k ∷ ks) = not (has_key ks k) && are_distinct ks

pub are_distinct-Distinct : (ks : List String) → are_distinct ks ≡ true → Distinct ks
unfolding are_distinct
are_distinct-Distinct [] h = tt
are_distinct-Distinct (k ∷ ks) h =
    (λ m. ground (arith, (has_key_iff ks k).1 m), are_distinct-Distinct ks (ground arith))

pub Distinct-Identified : (us : List Ref) → Distinct (map key us) → Identified us
Distinct-Identified us d x y hx hy e = Distinct-map_injective key us d x y hx hy e

-- A reference that is tracked already brings no new key.
pub Identified-cons : (t : Ref) (us : List Ref) → t ∈ us → Identified us → Identified (t ∷ us)
Identified-cons t us m h x y hx hy e = h x y (tracked x hx) (tracked y hy) e
  where
    tracked : (z : Ref) → z ∈ t ∷ us → z ∈ us
    tracked z (inl p) = subst (λ w. w ∈ us) (sym p) m
    tracked z (inr k) = k
