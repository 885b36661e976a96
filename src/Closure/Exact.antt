-- ===== src/Closure/Exact.antt =====
-- closure/closure.go: `Closure` against the relation of Closure/Relation, and its fuel.
use krsm.Prelude.{
  ℕ, suc, some, List, [], ◌∷◌, map, ◌≡◌, refl, sym, ◌↔◌, inl, inr, ◌∈◌, ∈-map, values, keys, subst,
  length, length-map, Option-cases,
}
use krsm.Walk.{walk}
use krsm.Walk.Reach.{Reach, root, step, walk_sound, walk_complete}
use krsm.Walk.Ends.{walk_total}
use krsm.Model.{Ref, Object, Action, key}
use krsm.State.{State}
use krsm.State.Laws.{IsOver}
use krsm.Closure.{expand, seeds, closure, sorted_refs}
use krsm.Closure.Walk.{affected_by, closure-from_walk, closure-of_walk}
use krsm.Closure.Sorted.{∈-sorted_refs}
use krsm.Closure.Relation.{
  Licensed, cascades, contains, disrupts, rescales, reconfigures, reselects, relabels, Touched,
  target, spreads, Affects, touched, binds, Identified,
}
use krsm.Closure.Added.{∈-values_of_key}
use krsm.Closure.Expand.{expand-Licensed, Licensed-expand}
use krsm.Closure.Noted.{values-affected_by, affected_by-IsKeyed, key-visited, key-selecting}

∈-seeds :
    (s : State) (a : Action) (q : Ref)
    → (q ∈ seeds s a) ↔ (((o : Object) × (q ≡ a.target) × (s.get a.target ≡ some o)))
unfolding seeds
∈-seeds s a q = elim (Option-cases (s.get a.target)) [
  | inl e ↦ rw e (λ m. absurd m, λ (_, _, h). absurd (cc))
  | inr (o, e) ↦
      rw e (λ m. elim m [ inl h ↦ (o, h, refl) | inr no_more ↦ absurd no_more ], λ (_, h, _). inl h)
]

Reach-Touched :
    (s : State) (a : Action) {r : Ref} → Reach (expand s a) (seeds s a) r → Touched s a r
Reach-Touched s a (root {x} m) =
    let (o, e, h) = (∈-seeds s a x).0 m in subst (Touched s a) (sym e) (target o h)
Reach-Touched s a (step {x = p} {y = q} r m) =
    spreads (Reach-Touched s a r) (expand-Licensed s a p q m)

-- Every member of a closure that `Closure` returns is affected by the action through the licensed
-- relations.
pub closure_sound :
    (fuel : ℕ) (s : State) (a : Action) (c : List Ref) (r : Ref)
    → closure fuel s a ≡ some c
    → r ∈ c
    → Affects s a r
closure_sound fuel s a c r h m =
    let (out, w, e) = closure-from_walk fuel s a c h in
    let v = (∈-sorted_refs r (affected_by s out)).0 (subst (λ l. r ∈ l) e m) in
    let reach = λ (x : Ref) (k : x ∈ out).
      Reach-Touched s a (walk_sound key (expand s a) (seeds s a) fuel out w x k) in
    elim (values-affected_by s out r v) [
      | inl k ↦ touched (reach r k)
      | inr (pod, k, kind, sel) ↦ binds pod (reach pod k) kind sel
    ]

module _ (s : State) (a : Action) (us : List Ref) (over : IsOver s us) where
  Licensed-tracked : {p q : Ref} → Licensed s a p q → q ∈ us
  Licensed-tracked {p} {q} (cascades c n) = over.owned p q n
  Licensed-tracked {p} {q} (contains c k n) = over.contained p.name q n
  Licensed-tracked {p} {q} (disrupts c k n) = over.selected p q n
  Licensed-tracked {p} {q} (rescales c k n) = over.controlling p q n
  Licensed-tracked {p} {q} (reconfigures c k n) = over.consuming p q n
  Licensed-tracked {p} {q} (reselects c k o w n) =
      over.matching a.target.namespace o.selector a.target.gvk.kind q n
  Licensed-tracked {p} {q} (relabels c k o w n) = over.binding a.target.namespace o.labels q n

  Touched-tracked : {r : Ref} → Touched s a r → r ∈ a.target ∷ us
  Touched-tracked (target o h) = inl refl
  Touched-tracked (spreads t l) = inr (Licensed-tracked l)

  -- Everything affected is the target or a tracked resource.
  pub Affects-tracked : {r : Ref} → Affects s a r → r ∈ a.target ∷ us
  Affects-tracked (touched t) = Touched-tracked t
  Affects-tracked {r} (binds pod t k h) = inr (over.targeting pod r h)

  -- Over a state that answers with listed references only, `Closure` returns with one unit of fuel
  -- more than the list is long, cyclic ownership included.
  pub closure_total : (c : List Ref) × (closure (suc (length us)) s a ≡ some c)
  closure_total =
      let universe = map key (a.target ∷ us) in
      let tracked_key =
        λ (x : Ref) (m : x ∈ a.target ∷ us). (∈-map key (key x) (a.target ∷ us)).1 (x, m, refl) in
      let (out, w) =
        walk_total key (expand s a) universe
          (λ p q m. tracked_key q (inr (Licensed-tracked (expand-Licensed s a p q m)))) (seeds s a)
          (λ q m. tracked_key q (inl ((∈-seeds s a q).0 m).1)) in
      let w' =
        subst (λ n. walk key (expand s a) n (seeds s a) [] ≡ some out)
          (length-map key (a.target ∷ us)) w in
      (sorted_refs (affected_by s out), closure-of_walk (suc (length us)) s a out w')

  module _ (inj : Identified (a.target ∷ us)) where
    Touched-Reach : {r : Ref} → Touched s a r → Reach (expand s a) (seeds s a) r
    Touched-Reach (target o h) = root ((∈-seeds s a a.target).1 (o, refl, h))
    Touched-Reach (spreads {p} {q} t l) =
        step (Touched-Reach t)
          (Licensed-expand s a p q us over (λ x y m n. inj x y (inr m) (inr n)) l)

    -- Over a state that answers with listed references only, where a key stands for one reference
    -- among the target and the list, every resource that the action affects is in the closure that
    -- `Closure` returns.
    pub closure_complete :
        (fuel : ℕ) (c : List Ref) (r : Ref) → closure fuel s a ≡ some c → Affects s a r → r ∈ c
    closure_complete fuel c r h w =
        let (out, e, same) = closure-from_walk fuel s a c h in
        let reach = λ (x : Ref) (t : Touched s a x).
          walk_complete key (expand s a) (seeds s a)
            (λ x y p q.
              inj x y (Touched-tracked (Reach-Touched s a p))
                (Touched-tracked (Reach-Touched s a q)))
            fuel out e x (Touched-Reach t) in
        let inside = λ (x : Ref) (m : x ∈ values (affected_by s out)). Affects-tracked (
          closure_sound fuel s a c x h
            (subst (λ l. x ∈ l) (sym same) ((∈-sorted_refs x (affected_by s out)).1 m))) in
        subst (λ l. r ∈ l) (sym same)
          ((∈-sorted_refs r (affected_by s out)).1 (
            ∈-values_of_key (a.target ∷ us) (affected_by s out) r inj (affected_by-IsKeyed s out)
              inside (Affects-tracked w) (found out reach w)))
      where
        found :
            (out : List Ref)
            → ((x : Ref) → Touched s a x → x ∈ out)
            → Affects s a r
            → key r ∈ keys (affected_by s out)
        found out reach (touched t) = key-visited s out r (reach r t)
        found out reach (binds pod t k sel) = key-selecting s out pod r (reach pod t) k sel
