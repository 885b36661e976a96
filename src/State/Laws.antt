-- ===== src/State/Laws.antt =====
-- What closure/closure.go relies on of a `State`, and the state of closure/state.go.
use krsm.Prelude.{
  String, Bool, true, Option, none, some, List, [], ◌∷◌, map, ◌≡◌, refl, sym, ap, ◌∙◌, inl, inr,
  ◌∈◌, ∈-map, ∈-filter, filter, ∈-insert, lookup-eq-some, lookup, insert, ◌==◌, not, Bool-cases,
  ◌↔◌, subst, Option-cases,
}
use krsm.Selector.{Labels, LabelSelector}
use krsm.Model.{Ref, Object, human}
use krsm.State.{
  State, ScanState, track, track_all, new_scan_state, scan, lookup_ref, for_tracked, owned_children,
  namespace_contents, pods_selected_by, pods_matching, selectors_targeting,
  selectors_matching_labels, consumers, controllers_targeting, scan_state,
}

pub record IsOver (s : State) (universe : List Ref) : Type 0 where
  pub got : (r : Ref) (o : Object) → s.get r ≡ some o → o.ref ∈ universe
  pub owned : (r q : Ref) → q ∈ s.owned_children r → q ∈ universe
  pub contained : (ns : String) (q : Ref) → q ∈ s.namespace_contents ns → q ∈ universe
  pub selected : (r q : Ref) → q ∈ s.pods_selected_by r → q ∈ universe
  pub matching :
      (ns : String) (l : LabelSelector) (k : String) (q : Ref)
      → q ∈ s.pods_matching ns l k
      → q ∈ universe
  pub targeting : (r q : Ref) → q ∈ s.selectors_targeting r → q ∈ universe
  pub binding :
      (ns : String) (l : Labels) (q : Ref) → q ∈ s.selectors_matching_labels ns l → q ∈ universe
  pub consuming : (r q : Ref) → q ∈ s.consumers r → q ∈ universe
  pub controlling : (r q : Ref) → q ∈ s.controllers_targeting r → q ∈ universe

abbrev pub refs_of : List Object → List Ref
refs_of objs = map (λ o. o.ref) objs

pub ∈-scan :
    (test : Object → Bool) (objs : List Object) (q : Ref)
    → (q ∈ scan test objs) ↔ ((o : Object) × (o ∈ objs) × (test o ≡ true) × (o.ref ≡ q))
unfolding scan
∈-scan test objs q = (
  λ m.
      let (o, k, e) = (∈-map (λ (x : Object). x.ref) q (filter test objs)).0 m in
      let (k', t) = (∈-filter test o objs).0 k in (o, k', t, e),
  λ (o, k, t, e).
      (∈-map (λ (x : Object). x.ref) q (filter test objs)).1
        (o, (∈-filter test o objs).1 (k, t), e),
)

scan-tracked :
    (test : Object → Bool) (objs : List Object) (q : Ref) → q ∈ scan test objs → q ∈ refs_of objs
scan-tracked test objs q m =
    let (o, k, _, e) = (∈-scan test objs q).0 m in
    (∈-map (λ (x : Object). x.ref) q objs).1 (o, k, e)

for_tracked-∈ :
    (o : Option Object) (f : Object → List Ref) (us : List Ref) (q : Ref)
    → ((x : Object) → q ∈ f x → q ∈ us)
    → q ∈ for_tracked o f
    → q ∈ us
for_tracked-∈ none f us q h m = absurd m
for_tracked-∈ (some o) f us q h m = h o m

-- The two maps of a scan state point to its objects.
pub record PointsInto (objs : List Object) (s : ScanState) : Type 0 where
  pub scanned : s.objs ≡ objs
  pub uids : (k : String) (o : Object) → (k, o) ∈ s.by_uid → o ∈ objs
  pub humans : (k : String) (o : Object) → (k, o) ∈ s.by_human → o ∈ objs

insert-points :
    (objs : List Object) (j : String) (x : Object) (m : List (String × Object))
    → x ∈ objs
    → ((k : String) (o : Object) → (k, o) ∈ m → o ∈ objs)
    → (k : String) (o : Object) → (k, o) ∈ insert j x m
    → o ∈ objs
insert-points objs j x m h hs k o p = elim (∈-insert j x (k, o) m p) [
  | inl e ↦ subst (λ y. y ∈ objs) (sym (ap (λ (y : String × Object). y.1) e)) h
  | inr old ↦ hs k o old
]

track-PointsInto :
    (objs : List Object) (s : ScanState) (x : Object)
    → x ∈ objs
    → PointsInto objs s
    → PointsInto objs (track s x)
unfolding track
track-PointsInto objs s x h p = record {
  scanned = p.scanned;
  uids = uids;
  humans = insert-points objs (human x.ref) x s.by_human h p.humans;
}
  where
    uids : (k : String) (o : Object) → (k, o) ∈ (track s x).by_uid → o ∈ objs
    uids k o m = elim (Bool-cases (not (x.ref.uid == ""))) [
      | inl e ↦ insert-points objs x.ref.uid x s.by_uid h p.uids k o (rw e at m)
      | inr e ↦ p.uids k o (rw e at m)
    ]

track_all-PointsInto :
    (objs : List Object) (s : ScanState) (os : List Object)
    → ((o : Object) → o ∈ os → o ∈ objs)
    → PointsInto objs s
    → PointsInto objs (track_all s os)
unfolding track_all
track_all-PointsInto objs s [] sub p = p
track_all-PointsInto objs s (o ∷ os) sub p =
    track_all-PointsInto objs (track s o) os (λ x m. sub x (inr m))
      (track-PointsInto objs s o (sub o (inl refl)) p)

pub new_scan_state-PointsInto : (objs : List Object) → PointsInto objs (new_scan_state objs)
unfolding new_scan_state
new_scan_state-PointsInto objs =
    track_all-PointsInto objs (record { objs = objs; by_uid = []; by_human = [] }) objs (λ o m. m)
      (record { scanned = refl; uids = λ k o m. absurd m; humans = λ k o m. absurd m })

-- What is looked up is one of the objects.
pub lookup_ref-tracked :
    (objs : List Object) (s : ScanState) (r : Ref) (o : Object)
    → PointsInto objs s
    → lookup_ref s r ≡ some o
    → o ∈ objs
unfolding lookup_ref
lookup_ref-tracked objs s r o p h =
    let by_name = λ (e : lookup (human r) s.by_human ≡ some o).
      p.humans (human r) o (lookup-eq-some (human r) o s.by_human e) in
    elim (Bool-cases (not (r.uid == ""))) [
      | inl e ↦ elim (Option-cases (lookup r.uid s.by_uid)) [
        | inl missing ↦ by_name (rw (e, missing) at h)
        | inr (x, found) ↦
            let same : some x ≡ some o = rw (e, found) at h in
            p.uids r.uid o (lookup-eq-some r.uid o s.by_uid (found ∙ same))
      ]
      | inr e ↦ by_name (rw e at h)
    ]

scan_state-IsOver :
    (objs : List Object) (s : ScanState)
    → PointsInto objs s
    → IsOver (scan_state s) (refs_of s.objs)
unfolding owned_children namespace_contents pods_selected_by pods_matching selectors_targeting
    selectors_matching_labels consumers controllers_targeting
scan_state-IsOver objs s p = record {
  got = λ r o h.
      (∈-map (λ (x : Object). x.ref) o.ref s.objs).1
        (o, subst (λ l. o ∈ l) (sym p.scanned) (lookup_ref-tracked objs s r o p h), refl);
  owned = λ r q. tracked r q _ (λ x. scan-tracked _ s.objs q);
  contained = λ ns q. scan-tracked _ s.objs q;
  selected = λ r q. tracked r q _ (λ x. scan-tracked _ s.objs q);
  matching = λ ns l k q. scan-tracked _ s.objs q;
  targeting = λ r q. tracked r q _ (λ x. scan-tracked _ s.objs q);
  binding = λ ns l q. scan-tracked _ s.objs q;
  consuming = λ r q. tracked r q _ (λ x. scan-tracked _ s.objs q);
  controlling = λ r q. tracked r q _ (λ x. scan-tracked _ s.objs q);
}
  where
    tracked :
        (r q : Ref) (f : Object → List Ref)
        → ((x : Object) → q ∈ f x → q ∈ refs_of s.objs)
        → q ∈ for_tracked (lookup_ref s r) f
        → q ∈ refs_of s.objs
    tracked r q f = for_tracked-∈ (lookup_ref s r) f (refs_of s.objs) q

-- Every reference that a method of the scanning state answers with is that of an object that the
-- state was built from.
pub new_scan_state-IsOver :
    (objs : List Object) → IsOver (scan_state (new_scan_state objs)) (refs_of objs)
new_scan_state-IsOver objs =
    let p = new_scan_state-PointsInto objs in
    subst (λ l. IsOver (scan_state (new_scan_state objs)) (refs_of l)) p.scanned
      (scan_state-IsOver objs (new_scan_state objs) p)
