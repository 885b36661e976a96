-- ===== src/Closure/Bounds.antt =====
-- closure/closure.go: the size, the order and the keys of a closure.
use krsm.Prelude.{
  ℕ, ◌≤◌, String, some, List, [], ◌∷◌, map, ◌≡◌, refl, sym, ap, ◌∙◌, inl, inr, ◌∈◌, ∈-map, Distinct,
  Distinct-length-le, values, keys, subst, length, length-map, arith,
}
use krsm.Model.{Ref, Action, key}
use krsm.State.{State}
use krsm.State.Laws.{IsOver}
use krsm.Closure.{closure, sorted_refs, sort_refs, insert_sorted, Affected}
use krsm.Closure.Walk.{affected_by, closure-from_walk}
use krsm.Closure.Sorted.{IsSorted, sort_refs-IsSorted, ∈-insert_sorted, ∈-sort_refs}
use krsm.Closure.Relation.{IsKeyed}
use krsm.Closure.Noted.{affected_by-IsKeyed, affected_by-Distinct}
use krsm.Closure.Exact.{closure_sound, Affects-tracked}

-- In a map that is keyed, the keys are the keys of the values.
keys-eq-map_key : (m : Affected) → IsKeyed m → keys m ≡ map key (values m)
keys-eq-map_key [] h = refl
keys-eq-map_key ((k, r) ∷ m) h = cc (h k r (inl refl), keys-eq-map_key m (λ j q p. h j q (inr p)))

Distinct-insert_sorted :
    (r : Ref) (l : List Ref)
    → ¬ (key r ∈ map key l)
    → Distinct (map key l)
    → Distinct (map key (insert_sorted r l))
unfolding insert_sorted
Distinct-insert_sorted r [] new d = (new, d)
Distinct-insert_sorted r (q ∷ l) new (fresh, d) =
    ground (arith, Distinct-insert_sorted r l (λ m. new (inr m)) d, q_fresh)
  where
    q_fresh : ¬ (key q ∈ map key (insert_sorted r l))
    q_fresh m =
        let (x, k, e) = (∈-map key (key q) (insert_sorted r l)).0 m in
        elim ((∈-insert_sorted x r l).0 k) [
          | inl p ↦ new (inl (ap key (sym p) ∙ e))
          | inr k' ↦ fresh ((∈-map key (key q) l).1 (x, k', e))
        ]

Distinct-sort_refs : (l : List Ref) → Distinct (map key l) → Distinct (map key (sort_refs l))
unfolding sort_refs
Distinct-sort_refs [] d = tt
Distinct-sort_refs (r ∷ l) (new, d) =
    Distinct-insert_sorted r (sort_refs l) r_fresh (Distinct-sort_refs l d)
  where
    r_fresh : ¬ (key r ∈ map key (sort_refs l))
    r_fresh m =
        let (x, k, e) = (∈-map key (key r) (sort_refs l)).0 m in
        new ((∈-map key (key r) l).1 (x, (∈-sort_refs x l).0 k, e))

-- A closure that `Closure` returns is in order of its names, and no key occurs in it twice.
pub closure_ordered :
    (fuel : ℕ) (s : State) (a : Action) (c : List Ref)
    → closure fuel s a ≡ some c
    → IsSorted c × Distinct (map key c)
unfolding sorted_refs
closure_ordered fuel s a c h =
    let (out, _, e) = closure-from_walk fuel s a c h in
    let m = affected_by s out in
    let d =
      subst Distinct (keys-eq-map_key m (affected_by-IsKeyed s out)) (affected_by-Distinct s out) in
    (
      subst IsSorted (sym e) (sort_refs-IsSorted (values m)),
      subst (λ l. Distinct (map key l)) (sym e) (Distinct-sort_refs (values m) d),
    )

-- A closure that `Closure` returns is no longer than a list that has the target and all the
-- references that the state answers with.
pub closure_bounded :
    (fuel : ℕ) (s : State) (a : Action) (us c : List Ref)
    → IsOver s us
    → a.target ∈ us
    → closure fuel s a ≡ some c
    → length c ≤ length us
closure_bounded fuel s a us c over t h =
    bound us (λ r m. inside r (Affects-tracked s a us over (closure_sound fuel s a c r h m)))
  where
    inside : (r : Ref) → r ∈ a.target ∷ us → r ∈ us
    inside r (inl e) = subst (λ x. x ∈ us) (sym e) t
    inside r (inr m) = m

    bound : (vs : List Ref) → ((r : Ref) → r ∈ c → r ∈ vs) → length c ≤ length vs
    bound vs sub =
        let d = (closure_ordered fuel s a c h).1 in
        let keys_in = λ (k : String) (m : k ∈ map key c). key_in k ((∈-map key k c).0 m) in
        omega (
          arith,
          length-map key c,
          length-map key vs,
          Distinct-length-le (map key c) (map key vs) d keys_in,
        )
      where
        key_in : (k : String) → (r : Ref) × (r ∈ c) × (key r ≡ k) → k ∈ map key vs
        key_in k (r, m, e) = (∈-map key k vs).1 (r, sub r m, e)
