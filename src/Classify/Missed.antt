-- ===== src/Classify/Missed.antt =====
-- closure/classify.go and closure/selector.go: how `sameLabels` and `equal` read a missing key and a
-- nil map, and which mutations that bears on.
use krsm.Prelude.{String, Bool, true, false, some, [], ◌∷◌, ◌≡◌, refl, sym, ◌∙◌, ◌≢◌}
use krsm.Selector.{Labels, LabelSelector, equal}
use krsm.Selector.Equal.{label_of-one_other}
use krsm.Model.{Object, Action}
use krsm.Model.Clause.{no_selector}
use krsm.Classify.{mutate_selector, mutate_labels, has, classify, same_labels}
use krsm.State.{selector_binds}
use krsm.State.Selection.{selector_binds_cases}
use krsm.Classify.Meaning.{classify_iff}

some_eq : (x y : Object) → some x ≡ some y → x ≡ y
some_eq x y h = cc

false_of_not-true : (b : Bool) → ¬ (b ≡ true) → b ≡ false
false_of_not-true true n = absurd (n refl)
false_of_not-true false n = refl

-- The class of a test that the payloads pass is not set.
unset :
    (a : Action) (o n : Object) (same : Object → Object → Bool)
    → a.old ≡ some o
    → a.new ≡ some n
    → same o n ≡ true
    → (p q : Object) → a.old ≡ some p
    → a.new ≡ some q
    → same p q ≡ false
    → ⊥
unset a o n same e f h p q e' f' h' =
    let ep : o ≡ p = some_eq o p (sym e ∙ e') in
    let eq : n ≡ q = some_eq n q (sym f ∙ f') in cc (ep, eq)

-- The class of a selector mutation is not set where `equal` holds.
unset_selector :
    (a : Action) (o n : Object)
    → a.old ≡ some o
    → a.new ≡ some n
    → equal o.selector n.selector ≡ true
    → has (classify a) mutate_selector ≡ false
unset_selector a o n e f h = false_of_not-true (has (classify a) mutate_selector) (λ t.
    let (_, (p, q, e', f', h')) = (classify_iff a mutate_selector).0 t in
    unset a o n (λ x y. equal x.selector y.selector) e f h p q e' f' h')

-- A selector that is there and empty.
abbrev pub empty_selector : LabelSelector
empty_selector = record { match_labels = some []; match_expressions = [] }

-- A mutation that puts an empty selector in place of an absent one is not a selector mutation,
-- although for owners other than a Service the absent selector binds no label set and the empty
-- one binds all.
pub widening_missed :
    (a : Action) (o n : Object) (kind : String) (labels : Labels)
    → a.old ≡ some o
    → a.new ≡ some n
    → o.selector ≡ no_selector
    → n.selector ≡ empty_selector
    → kind ≢ "Service"
    → (has (classify a) mutate_selector ≡ false)
      × (selector_binds kind o.selector labels ≡ false)
      × (selector_binds kind n.selector labels ≡ true)
unfolding equal
widening_missed a o n kind labels e f p q k = (
  unset_selector a o n e f (rw (p, q)),
  rw p ((selector_binds_cases kind no_selector labels).0 (refl, refl)),
  rw q (((selector_binds_cases kind empty_selector labels).1 (refl, refl)).1 k),
)

-- The labels `{k: ""}`.
abbrev pub blank : String → Labels
blank k = (k, "") ∷ []

-- A mutation whose payloads have the labels of one key each, with the empty value and different
-- keys, is not a label mutation.
pub relabel_missed :
    (a : Action) (o n : Object) (k j : String)
    → k ≢ j
    → a.old ≡ some o
    → a.new ≡ some n
    → o.labels ≡ blank k
    → n.labels ≡ blank j
    → has (classify a) mutate_labels ≡ false
unfolding same_labels
relabel_missed a o n k j ne e f lo ln = false_of_not-true (has (classify a) mutate_labels) (λ t.
    let (_, (p, q, e', f', h')) = (classify_iff a mutate_labels).0 t in
    unset a o n (λ x y. same_labels x.labels y.labels) e f (agree lo ln) p q e' f' h')
  where
    blanks : same_labels (blank k) (blank j) ≡ true
    blanks = rw (label_of-one_other k j "" (λ e. ne (sym e)))

    agree : o.labels ≡ blank k → n.labels ≡ blank j → same_labels o.labels n.labels ≡ true
    agree p q = rw (p, q) blanks
