-- ===== src/Selector/Matching.antt =====
-- closure/selector.go: `Matches` and the requirement operators.
use krsm.Prelude.{
  String, Bool, true, not, ◌&&◌, none, some, List, ◌≡◌, refl, inl, inr, ◌↔◌, ◌∈◌, arith, ◌==◌,
  eq_iff, all, all_iff, any_iff, Bool-cases, Option-cases, lookup, subst,
}
use krsm.Selector.{
  Labels, SelectorRequirement, LabelSelector, op_in, op_not_in, op_exists, op_does_not_exist,
  entries, label_of, entries_agree, contains, requirement_matches, matches,
}

pub contains_iff : (vals : List String) (v : String) → (contains vals v ≡ true) ↔ (v ∈ vals)
unfolding contains
contains_iff vals v = (
  λ h.
      let (x, m, e) = (any_iff (λ x. x == v) vals).0 h in
      subst (λ y. y ∈ vals) ((eq_iff x v).0 e) m,
  λ m. (any_iff (λ x. x == v) vals).1 (v, m, (eq_iff v v).1 refl),
)

-- A label set satisfies a requirement. An unknown operator is satisfied by none.
pub data Satisfies (labels : Labels) (r : SelectorRequirement) : Type 0 where
  has_one_of :
      r.operator ≡ op_in
      → (v : String) → lookup r.key labels ≡ some v
      → v ∈ r.values
      → Satisfies labels r
  has_none_of :
      r.operator ≡ op_not_in
      → ((v : String) → lookup r.key labels ≡ some v → ¬ (v ∈ r.values))
      → Satisfies labels r
  is_there :
      r.operator ≡ op_exists → (v : String) → lookup r.key labels ≡ some v → Satisfies labels r
  is_absent : r.operator ≡ op_does_not_exist → lookup r.key labels ≡ none → Satisfies labels r

module _ (labels : Labels) (r : SelectorRequirement) where
  requirement_sound : requirement_matches r labels ≡ true → Satisfies labels r
  unfolding requirement_matches
  requirement_sound h = elim (Bool-cases (r.operator == op_in)) [
    | inl i ↦ elim (Option-cases (lookup r.key labels)) [
      | inl e ↦ absurd (cc (rw (i, e) at h))
      | inr (v, e) ↦
          has_one_of ((eq_iff r.operator op_in).0 i) v e
            ((contains_iff r.values v).0 (rw (i, e) at h))
    ]
    | inr n₁ ↦ elim (Bool-cases (r.operator == op_not_in)) [
      | inl i ↦
          has_none_of ((eq_iff r.operator op_not_in).0 i)
            (λ v e m. excluded v e ((contains_iff r.values v).1 m) (rw (n₁, i) at h))
      | inr n₂ ↦ elim (Bool-cases (r.operator == op_exists)) [
        | inl i ↦ elim (Option-cases (lookup r.key labels)) [
          | inl e ↦ absurd (cc (rw (n₁, n₂, i, e) at h))
          | inr (v, e) ↦ is_there ((eq_iff r.operator op_exists).0 i) v e
        ]
        | inr n₃ ↦ elim (Bool-cases (r.operator == op_does_not_exist)) [
          | inl i ↦ elim (Option-cases (lookup r.key labels)) [
            | inl e ↦ is_absent ((eq_iff r.operator op_does_not_exist).0 i) e
            | inr (v, e) ↦ absurd (cc (rw (n₁, n₂, n₃, i, e) at h))
          ]
          | inr n₄ ↦ absurd (cc (rw (n₁, n₂, n₃, n₄) at h))
        ]
      ]
    ]
  ]
    where
      excluded :
          (v : String)
          → lookup r.key labels ≡ some v
          → contains r.values v ≡ true
          → elim (lookup r.key labels) as (λ _. Bool) [
            | none ↦ true
            | some w ↦ not (contains r.values w)
          ]
            ≡ true
          → ⊥
      excluded v e m k = cc (m, rw e at k)

  requirement_complete : Satisfies labels r → requirement_matches r labels ≡ true
  unfolding requirement_matches
  requirement_complete (has_one_of o v e m) =
      rw ((eq_iff r.operator op_in).1 o, e) ((contains_iff r.values v).1 m)
  requirement_complete (has_none_of o n) = rw o (elim (Option-cases (lookup r.key labels)) [
    | inl e ↦ rw e
    | inr (v, e) ↦ rw e (ground (arith, n v e, contains_iff r.values v))
  ])
  requirement_complete (is_there o v e) = rw (o, e)
  requirement_complete (is_absent o e) = rw (o, e)

  pub requirement_matches_iff : (requirement_matches r labels ≡ true) ↔ Satisfies labels r
  requirement_matches_iff = (requirement_sound, requirement_complete)

-- `Matches` holds exactly where every label of the selector reads the same in the labels and every
-- requirement is satisfied.
pub matches_iff :
    (s : LabelSelector) (labels : Labels)
    → (matches s labels ≡ true) ↔ (
        ((k v : String) → (k, v) ∈ entries s.match_labels → label_of k labels ≡ v)
        × ((r : SelectorRequirement) → r ∈ s.match_expressions → Satisfies labels r))
unfolding matches entries_agree
matches_iff s labels = (forth, back)
  where
    agrees : String × String → Bool
    agrees p = label_of p.0 labels == p.1

    meets : SelectorRequirement → Bool
    meets r = requirement_matches r labels

    forth :
        entries_agree (entries s.match_labels) labels && all meets s.match_expressions ≡ true
        → ((k v : String) → (k, v) ∈ entries s.match_labels → label_of k labels ≡ v)
          × ((r : SelectorRequirement) → r ∈ s.match_expressions → Satisfies labels r)
    forth h =
        let pairs : all agrees (entries s.match_labels) ≡ true = ground arith in
        let reqs : all meets s.match_expressions ≡ true = ground arith in
        (
          λ k v m.
              (eq_iff (label_of k labels) v).0
                ((all_iff agrees (entries s.match_labels)).0 pairs (k, v) m),
          λ r m.
              (requirement_matches_iff labels r).0 ((all_iff meets s.match_expressions).0 reqs r m),
        )

    back :
        ((k v : String) → (k, v) ∈ entries s.match_labels → label_of k labels ≡ v)
          × ((r : SelectorRequirement) → r ∈ s.match_expressions → Satisfies labels r)
        → entries_agree (entries s.match_labels) labels && all meets s.match_expressions ≡ true
    back (p, q) =
        let pairs : all agrees (entries s.match_labels) ≡ true =
          (all_iff agrees (entries s.match_labels)).1
            (λ x m. (eq_iff (label_of x.0 labels) x.1).1 (p x.0 x.1 m)) in
        let reqs : all meets s.match_expressions ≡ true =
          (all_iff meets s.match_expressions).1
            (λ r m. (requirement_matches_iff labels r).1 (q r m)) in
        rw pairs reqs
