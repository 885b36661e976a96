-- ===== src/Classify/Payloads.antt =====
-- closure/classify.go: the tests of the two payloads of a mutation.
use krsm.Prelude.{
  String, Bool, true, false, not, Option, none, some, List, ◌≡◌, refl, ◌↔◌, ◌∈◌, arith, any,
  any_iff, has_key, has_key_iff,
}
use krsm.Selector.{equal}
use krsm.Model.{Object, Action}
use krsm.Classify.{same_labels, with_payloads, selector_changed, labels_changed, finalizers_removed}

-- Both payloads are there, and stand in the relation.
abbrev pub Between : Action → (Object → Object → Type 0) → Type 0
Between a R = (o : Object) × (n : Object) × (a.old ≡ some o) × (a.new ≡ some n) × R o n

-- Some finalizer of the first list is not in the second.
abbrev pub Drops : List String → List String → Type 0
Drops old new = (f : String) × (f ∈ old) × (¬ (f ∈ new))

with_payloads_iff :
    (a : Action) (test : Object → Object → Bool)
    → (with_payloads a test ≡ true) ↔ Between a (λ o n. test o n ≡ true)
with_payloads_iff a test = (go a.old refl a.new refl, λ (o, n, e, f, h). rw (e, f) h)
  where
    go :
        (old : Option Object)
        → a.old ≡ old
        → (new : Option Object) → a.new ≡ new
        → with_payloads a test ≡ true
        → Between a (λ o n. test o n ≡ true)
    go none e new f h = absurd (cc (rw e at h))
    go (some o) e none f h = absurd (cc (rw (e, f) at h))
    go (some o) e (some n) f h = (o, n, e, f, rw (e, f) at h)

not-true : (b : Bool) → (not b ≡ true) ↔ (b ≡ false)
not-true true = ground arith
not-true false = ground arith

Between-map :
    (a : Action) (P Q : Object → Object → Type 0)
    → ((o n : Object) → P o n → Q o n)
    → Between a P
    → Between a Q
Between-map a P Q f (o, n, e, e', p) = (o, n, e, e', f o n p)

pub selector_changed_iff :
    (a : Action)
    → (selector_changed a ≡ true) ↔ Between a (λ o n. equal o.selector n.selector ≡ false)
unfolding selector_changed
selector_changed_iff a = (
  λ h.
      Between-map a _ _ (λ o n. (not-true (equal o.selector n.selector)).0)
        ((with_payloads_iff a (λ o n. not (equal o.selector n.selector))).0 h),
  λ h.
      (with_payloads_iff a (λ o n. not (equal o.selector n.selector))).1
        (Between-map a _ _ (λ o n. (not-true (equal o.selector n.selector)).1) h),
)

pub labels_changed_iff :
    (a : Action)
    → (labels_changed a ≡ true) ↔ Between a (λ o n. same_labels o.labels n.labels ≡ false)
unfolding labels_changed
labels_changed_iff a = (
  λ h.
      Between-map a _ _ (λ o n. (not-true (same_labels o.labels n.labels)).0)
        ((with_payloads_iff a (λ o n. not (same_labels o.labels n.labels))).0 h),
  λ h.
      (with_payloads_iff a (λ o n. not (same_labels o.labels n.labels))).1
        (Between-map a _ _ (λ o n. (not-true (same_labels o.labels n.labels)).1) h),
)

Drops-iff : (old new : List String) → (any (λ f. not (has_key new f)) old ≡ true) ↔ Drops old new
Drops-iff old new = (
  λ h.
      let (f, m, n) = (any_iff (λ f. not (has_key new f)) old).0 h in
      (f, m, λ k. cc ((not-true (has_key new f)).0 n, (has_key_iff new f).1 k)),
  λ (f, m, n). (any_iff (λ f. not (has_key new f)) old).1 (f, m, ground (arith, has_key_iff new f)),
)

pub finalizers_removed_iff :
    (a : Action)
    → (finalizers_removed a ≡ true) ↔ Between a (λ o n. Drops o.finalizers n.finalizers)
unfolding finalizers_removed
finalizers_removed_iff a = (
  λ h.
      Between-map a _ _ (λ o n. (Drops-iff o.finalizers n.finalizers).0)
        ((with_payloads_iff a (λ o n. any (λ f. not (has_key n.finalizers f)) o.finalizers)).0 h),
  λ h.
      (with_payloads_iff a (λ o n. any (λ f. not (has_key n.finalizers f)) o.finalizers)).1
        (Between-map a _ _ (λ o n. (Drops-iff o.finalizers n.finalizers).1) h),
)
