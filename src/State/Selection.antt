-- ===== src/State/Selection.antt =====
-- closure/state.go: `selectorBinds`.
use krsm.Prelude.{
  String, true, false, Option, some, none, List, [], ◌∷◌, ◌≡◌, refl, sym, ◌∙◌, ◌≢◌, ◌⊎◌, inl, inr,
  ◌↔◌, arith, eq_iff,
}
use krsm.Selector.{LabelSelector, SelectorRequirement, Labels, is_nil, entries, matches}
use krsm.State.{selector_binds}

binds_by_matching :
    (kind : String) (s : LabelSelector) (labels : Labels) (pairs : Option Labels)
    → (reqs : List SelectorRequirement) → s.match_labels ≡ pairs
    → s.match_expressions ≡ reqs
    → (entries pairs ≢ []) ⊎ (reqs ≢ [])
    → selector_binds kind s labels ≡ matches s labels
unfolding selector_binds
binds_by_matching kind s labels none [] e f w = elim w [
  | inl n ↦ absurd (n refl)
  | inr n ↦ absurd (n refl)
]
binds_by_matching kind s labels (some []) [] e f w = elim w [
  | inl n ↦ absurd (n refl)
  | inr n ↦ absurd (n refl)
]
binds_by_matching kind s labels (some (x ∷ m)) [] e f w = ground arith
binds_by_matching kind s labels none (r ∷ rs) e f w = ground arith
binds_by_matching kind s labels (some m) (r ∷ rs) e f w = ground arith

-- An absent selector binds nothing; an empty one binds every label set, except that of a Service,
-- which binds none; any other binds the label sets that it matches.
pub selector_binds_cases :
    (kind : String) (s : LabelSelector) (labels : Labels)
    → ((s.match_labels ≡ none) × (s.match_expressions ≡ []) → selector_binds kind s labels ≡ false)
      × ((s.match_labels ≡ some []) × (s.match_expressions ≡ [])
          → (selector_binds kind s labels ≡ true) ↔ (kind ≢ "Service"))
      × ((entries s.match_labels ≢ []) ⊎ (s.match_expressions ≢ [])
          → selector_binds kind s labels ≡ matches s labels)
unfolding selector_binds is_nil
selector_binds_cases kind s labels = (
  λ (e, f). rw (selector_binds, e, f),
  λ (e, f). rw (selector_binds, e, f) (ground (arith, eq_iff kind "Service")),
  λ w. binds_by_matching kind s labels s.match_labels s.match_expressions refl refl w,
)

-- The label sets that a selector stands for, by the kind of the object that has it.
pub data Bound (kind : String) (s : LabelSelector) (labels : Labels) : Type 0 where
  every_label_set :
      s.match_labels ≡ some [] → s.match_expressions ≡ [] → kind ≢ "Service" → Bound kind s labels
  by_requirements :
      (entries s.match_labels ≢ []) ⊎ (s.match_expressions ≢ [])
      → matches s labels ≡ true
      → Bound kind s labels

-- An absent selector binds nothing, an empty one binds every label set unless it is of a Service,
-- and any other binds the label sets that it matches.
pub selector_binds_iff :
    (kind : String) (s : LabelSelector) (labels : Labels)
    → (selector_binds kind s labels ≡ true) ↔ Bound kind s labels
selector_binds_iff kind s labels = (go s.match_labels s.match_expressions refl refl, back)
  where
    required :
        (entries s.match_labels ≢ []) ⊎ (s.match_expressions ≢ [])
        → selector_binds kind s labels ≡ true
        → Bound kind s labels
    required w h = by_requirements w (sym ((selector_binds_cases kind s labels).2 w) ∙ h)

    go :
        (pairs : Option Labels) (reqs : List SelectorRequirement)
        → s.match_labels ≡ pairs
        → s.match_expressions ≡ reqs
        → selector_binds kind s labels ≡ true
        → Bound kind s labels
    go none [] e f h = absurd (cc (h, (selector_binds_cases kind s labels).0 (e, f)))
    go (some []) [] e f h =
        every_label_set e f (((selector_binds_cases kind s labels).1 (e, f)).0 h)
    go (some (x ∷ m)) [] e f h = required (inl (rw e (λ p. absurd (cc)))) h
    go pairs (r ∷ rs) e f h = required (inr (rw f (λ p. absurd (cc)))) h

    back : Bound kind s labels → selector_binds kind s labels ≡ true
    back (every_label_set e f n) = ((selector_binds_cases kind s labels).1 (e, f)).1 n
    back (by_requirements w m) = (selector_binds_cases kind s labels).2 w ∙ m
