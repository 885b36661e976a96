-- ===== src/Scope/Derived.antt =====
-- scope/scope.go: the scope that `Derive` gives a target, and `Safe` under it.
use krsm.Prelude.{suc, some, List, [], ◌∷◌, ◌≡◌, refl, ◌⊎◌, inl, inr, ◌↔◌, ◌∈◌, subst, length, ne}
use krsm.Model.{Ref, Object, Action, Decision, block, key}
use krsm.Model.Clause.{ownership_clause, dim_ownership, dim_resource, dim_selector, dim_namespace}
use krsm.State.{State}
use krsm.State.Laws.{IsOver}
use krsm.Closure.Relation.{Affects, Identified}
use krsm.Closure.Keys.{Identified-cons}
use krsm.Safe.{safe, start_of}
use krsm.Safe.Covers.{Owned, Covers, by_name, by_labels, by_namespace, is_root, is_owned, Covered}
use krsm.Safe.Roots.{single-RootsAgree}
use krsm.Safe.Judgement.{Judges, safe-Judges}
use krsm.Scope.{derive}

-- The resource is the target, or the target owns it, directly or not.
abbrev pub InTree : State → Ref → Ref → Type 0
InTree s target r = (key r ≡ key target) ⊎ ((q : Ref) × Owned s target q × (key q ≡ key r))

pub Covered-derive :
    (s : State) (target r : Ref) → Covered s (derive target).clauses r ↔ InTree s target r
unfolding derive
Covered-derive s target r = (forth, back)
  where
    tree : Covers s r (ownership_clause target) → InTree s target r
    tree (by_name d a m) = elim d [
      | inl e ↦ absurd (ne dim_ownership "" refl e)
      | inr e ↦ absurd (ne dim_ownership dim_resource refl e)
    ]
    tree (by_labels d a n o e m) = absurd (ne dim_ownership dim_selector refl d)
    tree (by_namespace d a) = absurd (ne dim_ownership dim_namespace refl d)
    tree (is_root d e) = inl e
    tree (is_owned d q w e) = inr (q, w, e)

    forth : Covered s (ownership_clause target ∷ []) r → InTree s target r
    forth (c, m, w) = elim m [
      | inl e ↦ tree (subst (Covers s r) e w)
      | inr none_left ↦ absurd none_left
    ]

    back : InTree s target r → Covered s (ownership_clause target ∷ []) r
    back (inl e) = (ownership_clause target, inl refl, is_root refl e)
    back (inr (q, w, e)) = (ownership_clause target, inl refl, is_owned refl q w e)

start-tracked :
    (s : State) (us : List Ref) (r : Ref) (o : Object)
    → IsOver s us
    → s.get r ≡ some o
    → start_of s r ∈ us
unfolding start_of
start-tracked s us r o over h = rw (h, start_of) (over.got r o h)

-- The decision of `Safe` under the scope that `Derive` gives, with all that is known of it.
pub derived-Judges :
    (s : State) (us : List Ref) (a : Action) (o : Object)
    → IsOver s us
    → Identified (a.target ∷ us)
    → s.get a.target ≡ some o
    → (d : Decision) × (safe (suc (length us)) s a (derive a.target).clauses ≡ some d)
      × Judges s a (derive a.target).clauses d
unfolding derive ownership_clause
derived-Judges s us a o over inj h =
    let scope = (derive a.target).clauses in
    let known = λ (x y : Ref) (m : x ∈ us) (n : y ∈ us). inj x y (inr m) (inr n) in
    let tracked = start-tracked s us a.target o over h in
    let agree =
      single-RootsAgree s us (ownership_clause a.target)
        (Identified-cons (start_of s a.target) us tracked known) in
    safe-Judges s us a scope (record { over = over; identified = inj; agree = agree }) o h

-- Something that the action affects is not in the tree of its target.
abbrev pub Escapes : State → Action → Type 0
Escapes s a = (r : Ref) × Affects s a r × (¬ InTree s a.target r)

pub blocks-Escapes :
    (s : State) (a : Action) (d : Decision)
    → Judges s a (derive a.target).clauses d
    → (d.verdict ≡ block) ↔ Escapes s a
blocks-Escapes s a d j = (λ b. blocked (j.ranked.blocks.0 b), λ w. j.ranked.blocks.1 (escaping w))
  where
    blocked : (r : Ref) × (r ∈ d.escaping) → Escapes s a
    blocked (r, m) =
        let (w, n) = (j.escaped r).0 m in (r, w, λ t. n ((Covered-derive s a.target r).1 t))

    escaping : Escapes s a → (r : Ref) × (r ∈ d.escaping)
    escaping (r, w, n) = (r, (j.escaped r).1 (w, λ c. n ((Covered-derive s a.target r).0 c)))

-- Over a state that answers with listed references only, where a key stands for one reference
-- among the target and the list, `Safe` under the scope that `Derive` gives a tracked target
-- returns with one unit of fuel more than the list is long, and it blocks exactly if the action
-- affects a resource outside the ownership tree of the target.
pub derived_scope_exact :
    (s : State) (us : List Ref) (a : Action) (o : Object)
    → IsOver s us
    → Identified (a.target ∷ us)
    → s.get a.target ≡ some o
    → (d : Decision) × (safe (suc (length us)) s a (derive a.target).clauses ≡ some d)
      × ((d.verdict ≡ block) ↔ Escapes s a)
derived_scope_exact s us a o over inj h =
    let (d, e, j) = derived-Judges s us a o over inj h in (d, e, blocks-Escapes s a d j)
