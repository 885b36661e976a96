-- ===== src/Safe/Subtree.antt =====
-- closure/safe.go: `ownedSubtree` without its memo.
use krsm.Prelude.{
  ℕ, zero, suc, String, Option, none, some, List, [], ◌∷◌, ◌++◌, map, ◌≡◌, refl, ap, ◌∙◌, ◌⊎◌, inl,
  inr, ◌∈◌, ∈-map, has_key, Bool-cases, subst, length, length-map,
}
use krsm.Walk.{walk}
use krsm.Walk.Reach.{root, step, walk_sound, walk_complete}
use krsm.Walk.Ends.{walk_total}
use krsm.Model.{Ref, key}
use krsm.State.{State}
use krsm.State.Laws.{IsOver}
use krsm.Closure.Relation.{Identified}
use krsm.Safe.{start_of, subtree_loop, walk_subtree}
use krsm.Safe.Covers.{Owned}

abbrev map_keys : Option (List Ref) → Option (List String)
map_keys none = none
map_keys (some out) = some (map key out)

subtree_loop-eq-walk :
    (s : State) (fuel : ℕ) (queue seen : List Ref)
    → subtree_loop s fuel queue (map key seen)
      ≡ map_keys (walk key s.owned_children fuel queue seen)
unfolding subtree_loop walk
subtree_loop-eq-walk s fuel [] seen = refl
subtree_loop-eq-walk s zero (cur ∷ queue) seen =
    elim (Bool-cases (has_key (map key seen) (key cur))) [
      | inl e ↦ rw (e, subtree_loop, walk) (subtree_loop-eq-walk s zero queue seen)
      | inr e ↦ rw (e, subtree_loop, walk)
    ]
subtree_loop-eq-walk s (suc fuel) (cur ∷ queue) seen =
    elim (Bool-cases (has_key (map key seen) (key cur))) [
      | inl e ↦ rw (e, subtree_loop, walk) (subtree_loop-eq-walk s (suc fuel) queue seen)
      | inr e ↦
          rw (e, subtree_loop, walk)
            (subtree_loop-eq-walk s fuel (queue ++ s.owned_children cur) (cur ∷ seen))
    ]

-- The key of the given root, and the keys of the subtree.
pub record IsSubtree (s : State) (r : Ref) (members : List String) : Type 0 where
  pub rooted : key r ∈ members
  pub sound : (k : String) → k ∈ members → (k ≡ key r) ⊎ ((q : Ref) × Owned s r q × (key q ≡ k))
  pub complete : (q : Ref) → Owned s r q → key q ∈ members

module _ (s : State) (us : List Ref) (over : IsOver s us) (r : Ref) where
  Owned-tracked : {q : Ref} → Owned s r q → q ∈ start_of s r ∷ us
  Owned-tracked (root {x} (inl e)) = inl e
  Owned-tracked (root {x} (inr m)) = absurd m
  Owned-tracked (step {x = p} {y = q} w m) = inr (over.owned p q m)

  pub walk_subtree_total :
      (inj : Identified (start_of s r ∷ us))
      → (members : List String) × (walk_subtree (suc (length us)) s r ≡ some members)
        × IsSubtree s r members
  unfolding walk_subtree
  walk_subtree_total inj =
      let start = start_of s r in
      let universe = map key (start ∷ us) in
      let tracked_key =
        λ (x : Ref) (m : x ∈ start ∷ us). (∈-map key (key x) (start ∷ us)).1 (x, m, refl) in
      let (out, w) =
        walk_total key s.owned_children universe (λ p q m. tracked_key q (inr (over.owned p q m)))
          (start ∷ []) (λ q m. tracked_key q (elim m [ inl e ↦ inl e | inr n ↦ absurd n ])) in
      let w' =
        subst (λ n. walk key s.owned_children n (start ∷ []) [] ≡ some out)
          (length-map key (start ∷ us)) w in
      let ends = subtree_loop-eq-walk s (suc (length us)) (start ∷ []) [] ∙ ap map_keys w' in
      (
        key r ∷ map key out,
        rw (ends, walk_subtree),
        record {
          rooted = inl refl;
          sound = λ k m. elim m [
            | inl e ↦ inl e
            | inr m' ↦
                let (q, n, e) = (∈-map key k out).0 m' in
                inr
                  (q, walk_sound key s.owned_children (start ∷ []) (suc (length us)) out w' q n, e)
          ];
          complete = λ q w. inr ((∈-map key (key q) out).1 (q, found out w' q w, refl));
        },
      )
    where
      found :
          (out : List Ref)
          → walk key s.owned_children (suc (length us)) (start_of s r ∷ []) [] ≡ some out
          → (q : Ref) → Owned s r q
          → q ∈ out
      found out w' =
          walk_complete key s.owned_children (start_of s r ∷ [])
            (λ x y p q. inj x y (Owned-tracked p) (Owned-tracked q)) (suc (length us)) out w'
