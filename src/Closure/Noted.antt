-- ===== src/Closure/Noted.antt =====
-- closure/closure.go: what the visited resources leave in `affected`.
use krsm.Prelude.{
  String, List, [], ◌∷◌, ◌≡◌, refl, ◌⊎◌, inl, inr, ◌∈◌, ◌==◌, eq_iff, values, keys, insert,
  keys-insert, Distinct, Distinct-insert, ∈-map, sym, subst,
}
use krsm.Model.{Ref, key}
use krsm.State.{State}
use krsm.Closure.{note, when_refs}
use krsm.Closure.Walk.{affected_by}
use krsm.Closure.Relation.{IsKeyed, insert-IsKeyed, values-insert}
use krsm.Closure.Added.{values-add_all, add_all-IsKeyed, add_all-Distinct, keys-add_all}
use krsm.Closure.Expand.{∈-when_refs}

module _ (s : State) where
  -- The Services, budgets and policies that the code records with a visited resource.
  abbrev pub selectors_of : Ref → List Ref
  selectors_of r = when_refs (r.gvk.kind == "Pod") (s.selectors_targeting r)

  pub ∈-selectors_of :
      (r q : Ref) → q ∈ selectors_of r → (r.gvk.kind ≡ "Pod") × (q ∈ s.selectors_targeting r)
  ∈-selectors_of r q m =
      let (k, h) = (∈-when_refs (r.gvk.kind == "Pod") q (s.selectors_targeting r)).0 m in
      ((eq_iff r.gvk.kind "Pod").0 k, h)

  pub values-affected_by :
      (out : List Ref) (r : Ref)
      → r ∈ values (affected_by s out)
      → (r ∈ out)
        ⊎ ((pod : Ref) × (pod ∈ out) × (pod.gvk.kind ≡ "Pod") × (r ∈ s.selectors_targeting pod))
  unfolding affected_by note
  values-affected_by [] r m = absurd m
  values-affected_by (x ∷ out) r m =
      elim (values-add_all (selectors_of x) r (insert (key x) x (affected_by s out)) m) [
        | inl sel ↦ let (k, h) = ∈-selectors_of x r sel in inr (x, inl refl, k, h)
        | inr old ↦ elim (values-insert (key x) x r (affected_by s out) old) [
          | inl e ↦ inl (inl e)
          | inr older ↦ elim (values-affected_by out r older) [
            | inl m' ↦ inl (inr m')
            | inr (pod, m', k, h) ↦ inr (pod, inr m', k, h)
          ]
        ]
      ]

  pub affected_by-IsKeyed : (out : List Ref) → IsKeyed (affected_by s out)
  unfolding affected_by note
  affected_by-IsKeyed [] = λ k r m. absurd m
  affected_by-IsKeyed (x ∷ out) =
      add_all-IsKeyed (selectors_of x) (insert (key x) x (affected_by s out))
        (insert-IsKeyed x (affected_by s out) (affected_by-IsKeyed out))

  pub affected_by-Distinct : (out : List Ref) → Distinct (keys (affected_by s out))
  unfolding affected_by note
  affected_by-Distinct [] = tt
  affected_by-Distinct (x ∷ out) =
      add_all-Distinct (selectors_of x) (insert (key x) x (affected_by s out))
        (Distinct-insert (key x) x (affected_by s out) (affected_by-Distinct out))

  keys-note_old :
      (x : Ref) (out : List Ref) (k : String)
      → k ∈ keys (affected_by s out)
      → k ∈ keys (affected_by s (x ∷ out))
  unfolding affected_by note
  keys-note_old x out k h =
      (keys-add_all (selectors_of x) k (insert (key x) x (affected_by s out))).1
        (inr ((keys-insert (key x) k x (affected_by s out)).1 (inr h)))

  keys-note_self : (x : Ref) (out : List Ref) → key x ∈ keys (affected_by s (x ∷ out))
  unfolding affected_by note
  keys-note_self x out =
      (keys-add_all (selectors_of x) (key x) (insert (key x) x (affected_by s out))).1
        (inr ((keys-insert (key x) (key x) x (affected_by s out)).1 (inl refl)))

  keys-note_selector :
      (x r : Ref) (out : List Ref)
      → x.gvk.kind ≡ "Pod"
      → r ∈ s.selectors_targeting x
      → key r ∈ keys (affected_by s (x ∷ out))
  unfolding affected_by note
  keys-note_selector x r out k h =
      let m =
        (∈-when_refs (x.gvk.kind == "Pod") r (s.selectors_targeting x)).1
          ((eq_iff x.gvk.kind "Pod").1 k, h) in
      (keys-add_all (selectors_of x) (key r) (insert (key x) x (affected_by s out))).1
        (inl ((∈-map key (key r) (selectors_of x)).1 (r, m, refl)))

  pub key-visited : (out : List Ref) (x : Ref) → x ∈ out → key x ∈ keys (affected_by s out)
  key-visited [] x m = absurd m
  key-visited (y ∷ out) x (inl e) =
      subst (λ z. key z ∈ keys (affected_by s (y ∷ out))) (sym e) (keys-note_self y out)
  key-visited (y ∷ out) x (inr m) = keys-note_old y out (key x) (key-visited out x m)

  pub key-selecting :
      (out : List Ref) (pod r : Ref)
      → pod ∈ out
      → pod.gvk.kind ≡ "Pod"
      → r ∈ s.selectors_targeting pod
      → key r ∈ keys (affected_by s out)
  key-selecting [] pod r m k h = absurd m
  key-selecting (y ∷ out) pod r (inl e) k h =
      keys-note_selector y r out (subst (λ z. z.gvk.kind ≡ "Pod") e k)
        (subst (λ z. r ∈ s.selectors_targeting z) e h)
  key-selecting (y ∷ out) pod r (inr m) k h =
      keys-note_old y out (key r) (key-selecting out pod r m k h)
