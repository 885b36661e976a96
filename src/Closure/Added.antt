-- ===== src/Closure/Added.antt =====
-- closure/closure.go: the map `affected`, as `add_all` builds it.
use krsm.Prelude.{
  String, List, [], ◌∷◌, map, ◌≡◌, refl, sym, ◌∙◌, ◌⊎◌, inl, inr, ◌∈◌, ∈-map, arith, subst, insert,
  values, keys, keys-insert, Option, some, none, Distinct, Distinct-insert, ◌↔◌,
}
use krsm.Model.{Ref, Object, key}
use krsm.Closure.{Affected, add_all, from_payload}
use krsm.Closure.Relation.{IsKeyed, insert-IsKeyed, values-insert, Identified}

pub values-add_all :
    (rs : List Ref) (r : Ref) (m : Affected) → r ∈ values (add_all rs m) → (r ∈ rs) ⊎ (r ∈ values m)
unfolding add_all
values-add_all [] r m h = inr h
values-add_all (x ∷ rs) r m h = elim (values-add_all rs r (insert (key x) x m) h) [
  | inl new ↦ inl (inr new)
  | inr old ↦ elim (values-insert (key x) x r m old) [ inl e ↦ inl (inl e) | inr o ↦ inr o ]
]

pub add_all-IsKeyed : (rs : List Ref) (m : Affected) → IsKeyed m → IsKeyed (add_all rs m)
unfolding add_all
add_all-IsKeyed [] m h = h
add_all-IsKeyed (x ∷ rs) m h = add_all-IsKeyed rs (insert (key x) x m) (insert-IsKeyed x m h)

pub add_all-Distinct :
    (rs : List Ref) (m : Affected) → Distinct (keys m) → Distinct (keys (add_all rs m))
unfolding add_all
add_all-Distinct [] m d = d
add_all-Distinct (x ∷ rs) m d =
    add_all-Distinct rs (insert (key x) x m) (Distinct-insert (key x) x m d)

-- A key in the map stays, and the keys of what is added are in it.
pub keys-add_all :
    (rs : List Ref) (k : String) (m : Affected)
    → (k ∈ keys (add_all rs m)) ↔ ((k ∈ map key rs) ⊎ (k ∈ keys m))
unfolding add_all
keys-add_all [] k m = (inr, λ h. ground arith)
keys-add_all (x ∷ rs) k m =
    ground (arith, keys-add_all rs k (insert (key x) x m), keys-insert (key x) k x m)

-- An entry under a key of a reference, where keys stand for one reference, is that reference.
pub ∈-values_of_key :
    (us : List Ref) (m : Affected) (x : Ref)
    → Identified us
    → IsKeyed m
    → ((r : Ref) → r ∈ values m → r ∈ us)
    → x ∈ us
    → key x ∈ keys m
    → x ∈ values m
∈-values_of_key us m x inj keyed inside hx h =
    let ((k, r), p, e) = (∈-map (λ (y : String × Ref). y.0) (key x) m).0 h in
    let v = (∈-map (λ (y : String × Ref). y.1) r m).1 ((k, r), p, refl) in
    subst (λ y. y ∈ values m) (inj r x (inside r v) hx (sym (keyed k r p) ∙ e)) v

-- The union that a payload before and a payload after contribute.
abbrev pub Union : Option Object → Option Object → (Object → List Ref) → Affected
Union old new f = from_payload new f (from_payload old f [])

pub values-from_payload :
    (p : Option Object) (f : Object → List Ref) (r : Ref) (m : Affected)
    → r ∈ values (from_payload p f m)
    → ((o : Object) × (p ≡ some o) × (r ∈ f o)) ⊎ (r ∈ values m)
values-from_payload none f r m h = inr h
values-from_payload (some o) f r m h = elim (values-add_all (f o) r m h) [
  | inl new ↦ inl (o, refl, new)
  | inr old ↦ inr old
]

pub values-Union :
    (old new : Option Object) (f : Object → List Ref) (r : Ref)
    → r ∈ values (Union old new f)
    → (o : Object) × ((old ≡ some o) ⊎ (new ≡ some o)) × (r ∈ f o)
values-Union old new f r h = elim (values-from_payload new f r (from_payload old f []) h) [
  | inl (o, e, m) ↦ (o, inr e, m)
  | inr h' ↦ elim (values-from_payload old f r [] h') [
    | inl (o, e, m) ↦ (o, inl e, m)
    | inr nothing ↦ absurd nothing
  ]
]

from_payload-IsKeyed :
    (p : Option Object) (f : Object → List Ref) (m : Affected)
    → IsKeyed m
    → IsKeyed (from_payload p f m)
from_payload-IsKeyed none f m h = h
from_payload-IsKeyed (some o) f m h = add_all-IsKeyed (f o) m h

keys-from_payload_old :
    (p : Option Object) (f : Object → List Ref) (k : String) (m : Affected)
    → k ∈ keys m
    → k ∈ keys (from_payload p f m)
keys-from_payload_old none f k m h = h
keys-from_payload_old (some o) f k m h = (keys-add_all (f o) k m).1 (inr h)

keys-from_payload_new :
    (p : Option Object) (f : Object → List Ref) (r : Ref) (m : Affected) (o : Object)
    → p ≡ some o
    → r ∈ f o
    → key r ∈ keys (from_payload p f m)
keys-from_payload_new none f r m o e h = absurd (cc)
keys-from_payload_new (some x) f r m o e h =
    let same : o ≡ x = cc in
    (keys-add_all (f x) (key r) m).1
      (inl ((∈-map key (key r) (f x)).1 (r, subst (λ y. r ∈ f y) same h, refl)))

pub Union-complete :
    (us : List Ref) (old new : Option Object) (f : Object → List Ref) (r : Ref) (o : Object)
    → Identified us
    → ((x : Object) (q : Ref) → q ∈ f x → q ∈ us)
    → (old ≡ some o) ⊎ (new ≡ some o)
    → r ∈ f o
    → r ∈ values (Union old new f)
Union-complete us old new f r o inj inside w h =
    ∈-values_of_key us (Union old new f) r inj keyed only (inside o r h) (found w)
  where
    before : Affected
    before = from_payload old f []

    keyed : IsKeyed (Union old new f)
    keyed = from_payload-IsKeyed new f before (from_payload-IsKeyed old f [] (λ k q m. absurd m))

    only : (q : Ref) → q ∈ values (Union old new f) → q ∈ us
    only q m = let (x, _, m') = values-Union old new f q m in inside x q m'

    found : (old ≡ some o) ⊎ (new ≡ some o) → key r ∈ keys (Union old new f)
    found (inl e) =
        keys-from_payload_old new f (key r) before (keys-from_payload_new old f r [] o e h)
    found (inr e) = keys-from_payload_new new f r before o e h
