-- ===== src/Closure/Expand.antt =====
-- closure/closure.go: what one round of the loop queues, against the relation `Licensed`.
use krsm.Prelude.{
  String, Bool, true, false, ◌&&◌, List, ◌++◌, ◌≡◌, refl, ◌⊎◌, inl, inr, ◌↔◌, ◌∈◌, ∈-append, arith,
  ◌==◌, eq_iff, has_key, has_key_iff, values,
}
use krsm.Model.{Ref, Object, Action, key}
use krsm.Classify.{
  EffectClass, has, classify, workload_kinds, mountable_kinds, cascade_delete, containment,
  disruptive, scale_effect, mutate_config, mutate_selector, mutate_labels,
}
use krsm.State.{State}
use krsm.State.Laws.{IsOver}
use krsm.Closure.{
  selector_mutation_affected, label_mutation_affected, when_refs, expand, cascade_block,
  containment_block, disruption_block, scale_block, config_block, selector_block, label_block,
}
use krsm.Closure.Relation.{
  Licensed, cascades, contains, disrupts, rescales, reconfigures, reselects, relabels, Identified,
}
use krsm.Closure.Added.{Union, values-Union, Union-complete}

∈-seven :
    (q : Ref) (b₁ b₂ b₃ b₄ b₅ b₆ b₇ : List Ref)
    → (q ∈ b₁ ++ (b₂ ++ (b₃ ++ (b₄ ++ (b₅ ++ (b₆ ++ b₇))))))
      ↔ ((q ∈ b₁) ⊎ ((q ∈ b₂) ⊎ ((q ∈ b₃) ⊎ ((q ∈ b₄) ⊎ ((q ∈ b₅) ⊎ ((q ∈ b₆) ⊎ (q ∈ b₇)))))))
∈-seven q b₁ b₂ b₃ b₄ b₅ b₆ b₇ = ground (
  arith,
  ∈-append q b₁ (b₂ ++ (b₃ ++ (b₄ ++ (b₅ ++ (b₆ ++ b₇))))),
  ∈-append q b₂ (b₃ ++ (b₄ ++ (b₅ ++ (b₆ ++ b₇)))),
  ∈-append q b₃ (b₄ ++ (b₅ ++ (b₆ ++ b₇))),
  ∈-append q b₄ (b₅ ++ (b₆ ++ b₇)),
  ∈-append q b₅ (b₆ ++ b₇),
  ∈-append q b₆ b₇,
)

pub ∈-when_refs :
    (b : Bool) (q : Ref) (rs : List Ref) → (q ∈ when_refs b rs) ↔ ((b ≡ true) × (q ∈ rs))
∈-when_refs true q rs = (λ m. (refl, m), λ p. p.1)
∈-when_refs false q rs = (λ m. absurd m, λ p. absurd (cc))

-- A block behind two tests.
∈-when_both :
    (b c : Bool) (q : Ref) (rs : List Ref)
    → (q ∈ when_refs (b && c) rs) ↔ ((b ≡ true) × (c ≡ true) × (q ∈ rs))
∈-when_both true true q rs = (λ m. (refl, refl, m), λ p. p.2)
∈-when_both true false q rs = (λ m. absurd m, λ p. absurd (cc))
∈-when_both false c q rs = (λ m. absurd m, λ p. absurd (cc))

module _ (s : State) (a : Action) (p q : Ref) where
  abbrev class : EffectClass → Bool
  class c = has (classify a) c

  abbrev pods : Object → List Ref
  pods o = s.pods_matching a.target.namespace o.selector a.target.gvk.kind

  abbrev binders : Object → List Ref
  binders o = s.selectors_matching_labels a.target.namespace o.labels

  ∈-workload :
      (c : EffectClass) (rs : List Ref)
      → (q ∈ when_refs (class c && has_key workload_kinds p.gvk.kind) rs)
        ↔ ((class c ≡ true) × (p.gvk.kind ∈ workload_kinds) × (q ∈ rs))
  ∈-workload c rs = (
    λ m.
        let (x, y, z) = (∈-when_both (class c) (has_key workload_kinds p.gvk.kind) q rs).0 m in
        (x, (has_key_iff workload_kinds p.gvk.kind).0 y, z),
    λ (x, y, z).
        (∈-when_both (class c) (has_key workload_kinds p.gvk.kind) q rs).1
          (x, (has_key_iff workload_kinds p.gvk.kind).1 y, z),
  )

  ∈-mountable :
      (c : EffectClass) (rs : List Ref)
      → (q ∈ when_refs (class c && has_key mountable_kinds p.gvk.kind) rs)
        ↔ ((class c ≡ true) × (p.gvk.kind ∈ mountable_kinds) × (q ∈ rs))
  ∈-mountable c rs = (
    λ m.
        let (x, y, z) = (∈-when_both (class c) (has_key mountable_kinds p.gvk.kind) q rs).0 m in
        (x, (has_key_iff mountable_kinds p.gvk.kind).0 y, z),
    λ (x, y, z).
        (∈-when_both (class c) (has_key mountable_kinds p.gvk.kind) q rs).1
          (x, (has_key_iff mountable_kinds p.gvk.kind).1 y, z),
  )

  ∈-texts :
      (c : EffectClass) (u v : String) (rs : List Ref)
      → (q ∈ when_refs (class c && (u == v)) rs) ↔ ((class c ≡ true) × (u ≡ v) × (q ∈ rs))
  ∈-texts c u v rs = (
    λ m. let (x, y, z) = (∈-when_both (class c) (u == v) q rs).0 m in (x, (eq_iff u v).0 y, z),
    λ (x, y, z). (∈-when_both (class c) (u == v) q rs).1 (x, (eq_iff u v).1 y, z),
  )

  seven : (q ∈ expand s a p) ↔ (
      (q ∈ cascade_block s a p)
      ⊎ ((q ∈ containment_block s a p)
          ⊎ ((q ∈ disruption_block s a p)
              ⊎ ((q ∈ scale_block s a p)
                  ⊎ ((q ∈ config_block s a p)
                      ⊎ ((q ∈ selector_block s a p) ⊎ (q ∈ label_block s a p)))))))
  unfolding expand
  seven =
      ∈-seven q (cascade_block s a p) (containment_block s a p) (disruption_block s a p)
        (scale_block s a p) (config_block s a p) (selector_block s a p) (label_block s a p)

  pub expand-Licensed : q ∈ expand s a p → Licensed s a p q
  unfolding cascade_block containment_block disruption_block scale_block config_block selector_block
      label_block selector_mutation_affected label_mutation_affected
  expand-Licensed m = elim (seven.0 m) [
    | inl h ↦
        let (c, n) = (∈-when_refs (class cascade_delete) q (s.owned_children p)).0 h in cascades c n
    | inr (inl h) ↦
        let (c, k, n) =
          (∈-texts containment p.gvk.kind "Namespace" (s.namespace_contents p.name)).0 h in
        contains c k n
    | inr (inr (inl h)) ↦
        let (c, k, n) = (∈-workload disruptive (s.pods_selected_by p)).0 h in disrupts c k n
    | inr (inr (inr (inl h))) ↦
        let (c, k, n) = (∈-workload scale_effect (s.controllers_targeting p)).0 h in rescales c k n
    | inr (inr (inr (inr (inl h)))) ↦
        let (c, k, n) = (∈-mountable mutate_config (s.consumers p)).0 h in reconfigures c k n
    | inr (inr (inr (inr (inr (inl h))))) ↦
        let (c, k, n) =
          (∈-texts mutate_selector (key p) (key a.target) (values (Union a.old a.new pods))).0 h in
        let (o, w, n') = values-Union a.old a.new pods q n in reselects c k o w n'
    | inr (inr (inr (inr (inr (inr h))))) ↦
        let (c, k, n) =
          (∈-texts mutate_labels (key p) (key a.target) (values (Union a.old a.new binders))).0 h in
        let (o, w, n') = values-Union a.old a.new binders q n in relabels c k o w n'
  ]

  module _ (us : List Ref) (over : IsOver s us) (inj : Identified us) where
    pub Licensed-expand : Licensed s a p q → q ∈ expand s a p
    unfolding cascade_block containment_block disruption_block scale_block config_block
        selector_block label_block selector_mutation_affected label_mutation_affected
    Licensed-expand (cascades c n) =
        seven.1 (inl ((∈-when_refs (class cascade_delete) q (s.owned_children p)).1 (c, n)))
    Licensed-expand (contains c k n) = seven.1 (
        inr (
          inl (
            (∈-texts containment p.gvk.kind "Namespace" (s.namespace_contents p.name)).1
              (c, k, n))))
    Licensed-expand (disrupts c k n) =
        seven.1 (inr (inr (inl ((∈-workload disruptive (s.pods_selected_by p)).1 (c, k, n)))))
    Licensed-expand (rescales c k n) =
        seven.1 (
          inr (inr (inr (inl ((∈-workload scale_effect (s.controllers_targeting p)).1 (c, k, n))))))
    Licensed-expand (reconfigures c k n) =
        seven.1
          (inr (inr (inr (inr (inl ((∈-mountable mutate_config (s.consumers p)).1 (c, k, n)))))))
    Licensed-expand (reselects c k o w n) =
        let m =
          Union-complete us a.old a.new pods q o inj
            (λ x r h. over.matching a.target.namespace x.selector a.target.gvk.kind r h) w n in
        seven.1 (
          inr (
            inr (
              inr (
                inr (
                  inr (
                    inl (
                      (∈-texts mutate_selector (key p) (key a.target)
                          (values (Union a.old a.new pods))).1
                        (c, k, m))))))))
    Licensed-expand (relabels c k o w n) =
        let m =
          Union-complete us a.old a.new binders q o inj
            (λ x r h. over.binding a.target.namespace x.labels r h) w n in
        seven.1 (
          inr (
            inr (
              inr (
                inr (
                  inr (
                    inr (
                      (∈-texts mutate_labels (key p) (key a.target)
                          (values (Union a.old a.new binders))).1
                        (c, k, m))))))))
