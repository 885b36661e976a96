-- ===== src/State/Lookup.antt =====
-- closure/state.go: `NewScanState` and `lookup`.
use krsm.Prelude.{
  String, false, not, some, List, [], ◌∷◌, ◌≡◌, refl, sym, ap, ◌∙◌, ◌≢◌, ◌⊎◌, inl, inr, ◌∈◌, arith,
  ◌==◌, eq_iff, lookup, insert, lookup-insert, lookup-eq-some, Bool-cases, text_dec,
}
use krsm.Model.{Ref, Object, human}
use krsm.State.{ScanState, track, track_all, new_scan_state, lookup_ref}
use krsm.State.Laws.{new_scan_state-PointsInto}

-- A map finds an entry for the key, and whatever it finds has the key as its text.
abbrev Found : String → List (String × Object) → Type 0
Found k m = (x : Object) × (lookup k m ≡ some x)

abbrev KeyedBy : (Object → String) → List (String × Object) → Type 0
KeyedBy f m = (k : String) (x : Object) → lookup k m ≡ some x → f x ≡ k

insert-KeyedBy :
    (f : Object → String) (o : Object) (m : List (String × Object))
    → KeyedBy f m
    → KeyedBy f (insert (f o) o m)
insert-KeyedBy f o m h k x e =
    let e' = sym (lookup-insert (f o) k o m) ∙ e in
    elim (Bool-cases (f o == k)) [
      | inl same ↦
          let p : some o ≡ some x = rw same at e' in
          let q : o ≡ x = cc in sym (ap f q) ∙ (eq_iff (f o) k).0 same
      | inr other ↦ h k x (rw other at e')
    ]

insert-Found :
    (j k : String) (o : Object) (m : List (String × Object))
    → (j ≡ k) ⊎ Found k m
    → Found k (insert j o m)
insert-Found j k o m w = elim (Bool-cases (j == k)) [
  | inl same ↦ (o, lookup-insert j k o m ∙ rw same)
  | inr other ↦ elim w [
    | inl e ↦ absurd (cc (other, (eq_iff j k).1 e))
    | inr (x, e) ↦ (x, lookup-insert j k o m ∙ rw other e)
  ]
]

-- Both maps are keyed by what their entries say.
record IsIndex (s : ScanState) : Type 0 where
  uids : KeyedBy (λ o. o.ref.uid) s.by_uid
  humans : KeyedBy (λ o. human o.ref) s.by_human

track-IsIndex : (s : ScanState) (o : Object) → IsIndex s → IsIndex (track s o)
unfolding track
track-IsIndex s o i = record {
  uids = elim (Bool-cases (not (o.ref.uid == ""))) [
    | inl e ↦ rw e (insert-KeyedBy (λ x. x.ref.uid) o s.by_uid i.uids)
    | inr e ↦ rw e i.uids
  ];
  humans = insert-KeyedBy (λ x. human x.ref) o s.by_human i.humans;
}

track-Found_uid :
    (s : ScanState) (o : Object) (k : String)
    → ((o.ref.uid ≡ k) × (k ≢ "")) ⊎ Found k s.by_uid
    → Found k (track s o).by_uid
unfolding track
track-Found_uid s o k w = elim (Bool-cases (not (o.ref.uid == ""))) [
  | inl e ↦
      rw e (insert-Found o.ref.uid k o s.by_uid (elim w [ inl (p, _) ↦ inl p | inr f ↦ inr f ]))
  | inr e ↦ rw e (elim w [ inl (p, n) ↦ absurd (n (sym p ∙ empty e)) | inr f ↦ f ])
]
  where
    empty : not (o.ref.uid == "") ≡ false → o.ref.uid ≡ ""
    empty e = ground (arith, eq_iff o.ref.uid "")

track-Found-human :
    (s : ScanState) (o : Object) (k : String)
    → (human o.ref ≡ k) ⊎ Found k s.by_human
    → Found k (track s o).by_human
unfolding track
track-Found-human s o k w = insert-Found (human o.ref) k o s.by_human w

module _ (k : String) where
  track_all-keeps_uid :
      (s : ScanState) (os : List Object) → Found k s.by_uid → Found k (track_all s os).by_uid
  unfolding track_all
  track_all-keeps_uid s [] f = f
  track_all-keeps_uid s (o ∷ os) f =
      track_all-keeps_uid (track s o) os (track-Found_uid s o k (inr f))

  track_all-keeps_human :
      (s : ScanState) (os : List Object) → Found k s.by_human → Found k (track_all s os).by_human
  unfolding track_all
  track_all-keeps_human s [] f = f
  track_all-keeps_human s (o ∷ os) f =
      track_all-keeps_human (track s o) os (track-Found-human s o k (inr f))

  track_all-Found_uid :
      (s : ScanState) (os : List Object) (o : Object)
      → o ∈ os
      → o.ref.uid ≡ k
      → k ≢ ""
      → Found k (track_all s os).by_uid
  unfolding track_all
  track_all-Found_uid s [] o m e n = absurd m
  track_all-Found_uid s (x ∷ os) o (inl p) e n =
      track_all-keeps_uid (track s x) os
        (track-Found_uid s x k (inl (ap (λ (y : Object). y.ref.uid) (sym p) ∙ e, n)))
  track_all-Found_uid s (x ∷ os) o (inr m) e n = track_all-Found_uid (track s x) os o m e n

  track_all-Found-human :
      (s : ScanState) (os : List Object) (o : Object)
      → o ∈ os
      → human o.ref ≡ k
      → Found k (track_all s os).by_human
  unfolding track_all
  track_all-Found-human s [] o m e = absurd m
  track_all-Found-human s (x ∷ os) o (inl p) e =
      track_all-keeps_human (track s x) os
        (track-Found-human s x k (inl (ap (λ (y : Object). human y.ref) (sym p) ∙ e)))
  track_all-Found-human s (x ∷ os) o (inr m) e = track_all-Found-human (track s x) os o m e

track_all-IsIndex : (s : ScanState) (os : List Object) → IsIndex s → IsIndex (track_all s os)
unfolding track_all
track_all-IsIndex s [] i = i
track_all-IsIndex s (o ∷ os) i = track_all-IsIndex (track s o) os (track-IsIndex s o i)

new_scan_state-IsIndex : (objs : List Object) → IsIndex (new_scan_state objs)
unfolding new_scan_state lookup
new_scan_state-IsIndex objs =
    track_all-IsIndex (record { objs = objs; by_uid = []; by_human = [] }) objs
      (record { uids = λ k x e. absurd (cc); humans = λ k x e. absurd (cc) })

-- Among the objects, a uid that is not empty, or a name, stands for one.
pub record Unique (objs : List Object) : Type 0 where
  pub by_uid : (x y : Object) → x ∈ objs → y ∈ objs → x.ref.uid ≢ "" → x.ref.uid ≡ y.ref.uid → x ≡ y
  pub by_human : (x y : Object) → x ∈ objs → y ∈ objs → human x.ref ≡ human y.ref → x ≡ y

abbrev empty_state : List Object → ScanState
empty_state objs = record { objs = objs; by_uid = []; by_human = [] }

uid-found :
    (objs : List Object) (o : Object) (k : String)
    → o ∈ objs
    → Unique objs
    → k ≢ ""
    → o.ref.uid ≡ k
    → lookup k (new_scan_state objs).by_uid ≡ some o
unfolding new_scan_state
uid-found objs o k m u n e =
    let (x, h) = track_all-Found_uid k (empty_state objs) objs o m e n in
    let into =
      (new_scan_state-PointsInto objs).uids k x
        (lookup-eq-some k x (new_scan_state objs).by_uid h) in
    let same = (new_scan_state-IsIndex objs).uids k x h in
    h ∙ ap some (sym (u.by_uid o x m into (λ p. n (sym e ∙ p)) (e ∙ sym same)))

human-found :
    (objs : List Object) (o : Object) (k : String)
    → o ∈ objs
    → Unique objs
    → human o.ref ≡ k
    → lookup k (new_scan_state objs).by_human ≡ some o
unfolding new_scan_state
human-found objs o k m u e =
    let (x, h) = track_all-Found-human k (empty_state objs) objs o m e in
    let into =
      (new_scan_state-PointsInto objs).humans k x
        (lookup-eq-some k x (new_scan_state objs).by_human h) in
    let same = (new_scan_state-IsIndex objs).humans k x h in
    h ∙ ap some (sym (u.by_human o x m into (e ∙ sym same)))

-- A reference names an object: by its uid if the reference has one, else by kind, namespace and name.
abbrev pub Names : Ref → Object → Type 0
Names r o = ((r.uid ≢ "") × (o.ref.uid ≡ r.uid)) ⊎ ((r.uid ≡ "") × (human o.ref ≡ human r))

-- Among objects whose uids and names identify them, a reference with a uid that is that of an
-- object, or with no uid and the kind, namespace and name of an object, is resolved to that
-- object.
pub lookup_ref-finds :
    (objs : List Object) (o : Object) (r : Ref)
    → o ∈ objs
    → Unique objs
    → Names r o
    → lookup_ref (new_scan_state objs) r ≡ some o
unfolding lookup_ref
lookup_ref-finds objs o r m u (inl (n, e)) =
    let h = uid-found objs o r.uid m u n e in ground (arith, h, eq_iff r.uid "")
lookup_ref-finds objs o r m u (inr (n, e)) =
    let h = human-found objs o (human r) m u e in ground (arith, h, eq_iff r.uid "")

-- Every object is found by its own reference.
pub lookup_ref_self :
    (objs : List Object) (o : Object)
    → o ∈ objs
    → Unique objs
    → lookup_ref (new_scan_state objs) o.ref ≡ some o
lookup_ref_self objs o m u = elim (text_dec o.ref.uid "") [
  | inl e ↦ lookup_ref-finds objs o o.ref m u (inr (e, refl))
  | inr n ↦ lookup_ref-finds objs o o.ref m u (inl (n, refl))
]
