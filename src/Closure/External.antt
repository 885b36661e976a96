-- ===== src/Closure/External.antt =====
-- closure/closure.go: `ExternalEffects` and `removedFinalizers`.
use krsm.Prelude.{
  String, Bool, true, not, some, List, map, ◌≡◌, sym, inl, inr, ◌↔◌, ◌∈◌, ∈-map, ∈-filter, arith,
  has_key, has_key_iff, Bool-cases, Option-cases,
}
use krsm.Model.{Ref, Object, Action}
use krsm.Classify.{has, classify, finalizer_removal}
use krsm.Classify.Meaning.{IsMutation, classify_iff}
use krsm.State.{State}
use krsm.Closure.{removed_finalizers, external_ref, external_effects}

-- What the payloads say was dropped: a finalizer of the old object that the new one does not keep.
abbrev pub Dropped : Action → String → Type 0
Dropped a f =
    (o : Object) × (n : Object) × (a.old ≡ some o)
    × (a.new ≡ some n)
    × (f ∈ o.finalizers)
    × (¬ (f ∈ n.finalizers))

kept_iff : (f : String) (kept : List String) → (not (has_key kept f) ≡ true) ↔ (¬ (f ∈ kept))
kept_iff f kept = ground (arith, has_key_iff kept f)

removed_finalizers_iff :
    (a : Action) (o n : Object) (f : String)
    → a.old ≡ some o
    → a.new ≡ some n
    → (f ∈ removed_finalizers a) ↔ ((f ∈ o.finalizers) × (¬ (f ∈ n.finalizers)))
unfolding removed_finalizers
removed_finalizers_iff a o n f e e' =
    let kept = λ (g : String). not (has_key n.finalizers g) in
    rw (e, removed_finalizers, e')
      (
        λ m. let (k, t) = (∈-filter kept f o.finalizers).0 m in (k, (kept_iff f n.finalizers).0 t),
        λ (k, t). (∈-filter kept f o.finalizers).1 (k, (kept_iff f n.finalizers).1 t),
      )

-- An external effect is reported for each finalizer that an update or a patch of a tracked target
-- drops, and for nothing else.
pub external_effects_iff :
    (s : State) (a : Action) (q : Ref)
    → (q ∈ external_effects s a) ↔ (
        ((t : Object) × (s.get a.target ≡ some t))
        × IsMutation a.verb
        × ((f : String) × Dropped a f × (q ≡ external_ref a f)))
unfolding external_effects
external_effects_iff s a q = (forth, back)
  where
    class : Bool
    class = has (classify a) finalizer_removal

    forth :
        q ∈ external_effects s a
        → ((t : Object) × (s.get a.target ≡ some t))
          × IsMutation a.verb
          × ((f : String) × Dropped a f × (q ≡ external_ref a f))
    forth m = elim (Option-cases (s.get a.target)) [
      | inl e ↦ absurd (rw (e, external_effects) at m)
      | inr (t, e) ↦ elim (Bool-cases class) [
        | inr c ↦ absurd (rw (e, external_effects, c) at m)
        | inl c ↦
            let m' : q ∈ map (external_ref a) (removed_finalizers a) =
              rw (e, external_effects, c) at m in
            let (v, (o, n, p, p', _)) = (classify_iff a finalizer_removal).0 c in
            let (f, k, r) = (∈-map (external_ref a) q (removed_finalizers a)).0 m' in
            let (i, j) = (removed_finalizers_iff a o n f p p').0 k in
            ((t, e), v, (f, (o, n, p, p', i, j), sym r))
      ]
    ]

    back :
        ((t : Object) × (s.get a.target ≡ some t))
          × IsMutation a.verb
          × ((f : String) × Dropped a f × (q ≡ external_ref a f))
        → q ∈ external_effects s a
    back ((t, e), v, (f, (o, n, p, p', i, j), r)) =
        let c = (classify_iff a finalizer_removal).1 (v, (o, n, p, p', (f, i, j))) in
        rw (e, external_effects, c)
          ((∈-map (external_ref a) q (removed_finalizers a)).1
            (f, (removed_finalizers_iff a o n f p p').1 (i, j), sym r))
