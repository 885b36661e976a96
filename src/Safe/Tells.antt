-- ===== src/Safe/Tells.antt =====
-- closure/safe.go: the test of each dimension in `matchScope`.
use krsm.Prelude.{
  String, Bool, true, false, ◌&&◌, List, ◌≡◌, refl, sym, ◌∙◌, ◌≢◌, ◌⊎◌, inl, inr, ◌↔◌, ◌∈◌, arith,
  ◌==◌, eq_iff, has_key, has_key_iff, subst,
}
use krsm.Model.{Ref, Object, key}
use krsm.Model.Clause.{ScopeClause, dim_resource, dim_selector, dim_namespace, dim_ownership}
use krsm.State.{State}
use krsm.Glob.{glob_match}
use krsm.Safe.{labels, gates, match_selector_clause}
use krsm.Safe.Covers.{
  Covers, by_name, by_labels, by_namespace, is_root, is_owned, gates_iff, match_selector_clause_iff,
}
use krsm.Safe.Subtree.{IsSubtree}

clash : (d x y : String) → (x == y) ≡ false → d ≡ x → d ≡ y → ⊥
clash d x y ne p q = cc (ne, (eq_iff x y).1 (sym p ∙ q))

-- `true` exactly where the statement holds.
abbrev pub Tells : Type 0 → Bool → Type 0
Tells P b = (b ≡ true) ↔ P

and-true : (a b : Bool) → (a && b ≡ true) ↔ ((a ≡ true) × (b ≡ true))
and-true true b = ground arith
and-true false b = ground arith

-- What the test of each dimension tells, for a clause of that dimension.
module _ (s : State) (r : Ref) (c : ScopeClause) where
  pub resource-Tells :
      (c.dim ≡ "") ⊎ (c.dim ≡ dim_resource)
      → Tells (Covers s r c) (gates c r && glob_match c.name r.name)
  resource-Tells d = (forth, back)
    where
      forth : gates c r && glob_match c.name r.name ≡ true → Covers s r c
      forth h =
          let (g, m) = (and-true (gates c r) (glob_match c.name r.name)).0 h in
          by_name d ((gates_iff c r).0 g) m

      other : (x : String) → ("" == x) ≡ false → (dim_resource == x) ≡ false → c.dim ≡ x → ⊥
      other x n m e = elim d [
        | inl p ↦ clash c.dim "" x n p e
        | inr p ↦ clash c.dim dim_resource x m p e
      ]

      back : Covers s r c → gates c r && glob_match c.name r.name ≡ true
      back (by_name d' a m) =
          (and-true (gates c r) (glob_match c.name r.name)).1 ((gates_iff c r).1 a, m)
      back (by_labels d' a n o e m) = absurd (other dim_selector refl refl d')
      back (by_namespace d' a) = absurd (other dim_namespace refl refl d')
      back (is_root d' e) = absurd (other dim_ownership refl refl d')
      back (is_owned d' q w e) = absurd (other dim_ownership refl refl d')

  -- A clause of another named dimension is not a resource clause.
  not_resource :
      (x : String)
      → (x == "") ≡ false
      → (x == dim_resource) ≡ false
      → c.dim ≡ x
      → (c.dim ≡ "") ⊎ (c.dim ≡ dim_resource)
      → ⊥
  not_resource x n m e (inl p) = clash c.dim x "" n e p
  not_resource x n m e (inr p) = clash c.dim x dim_resource m e p

  pub selector-Tells :
      c.dim ≡ dim_selector
      → Tells (Covers s r c) (gates c r && match_selector_clause c r (labels s))
  selector-Tells d = (forth, back)
    where
      forth : gates c r && match_selector_clause c r (labels s) ≡ true → Covers s r c
      forth h =
          let (g, m) = (and-true (gates c r) (match_selector_clause c r (labels s))).0 h in
          let (n, o, e, k) = flat ((match_selector_clause_iff s c r).0 m) in
          by_labels d ((gates_iff c r).0 g) n o e k
        where
          flat :
              {A : Type 0} {B C : Object → Type 0}
              → A × ((o : Object) × B o × C o)
              → (a : A) × (o : Object) × B o × C o
          flat (x, (o, y, z)) = (x, o, y, z)

      back : Covers s r c → gates c r && match_selector_clause c r (labels s) ≡ true
      back (by_name d' a m) = absurd (not_resource dim_selector refl refl d d')
      back (by_labels d' a n o e m) =
          (and-true (gates c r) (match_selector_clause c r (labels s))).1
            ((gates_iff c r).1 a, (match_selector_clause_iff s c r).1 (n, (o, e, m)))
      back (by_namespace d' a) = absurd (clash c.dim dim_selector dim_namespace refl d d')
      back (is_root d' e) = absurd (clash c.dim dim_selector dim_ownership refl d d')
      back (is_owned d' q w e) = absurd (clash c.dim dim_selector dim_ownership refl d d')

  pub namespace-Tells : c.dim ≡ dim_namespace → Tells (Covers s r c) (gates c r)
  namespace-Tells d = (λ h. by_namespace d ((gates_iff c r).0 h), back)
    where
      back : Covers s r c → gates c r ≡ true
      back (by_name d' a m) = absurd (not_resource dim_namespace refl refl d d')
      back (by_labels d' a n o e m) = absurd (clash c.dim dim_namespace dim_selector refl d d')
      back (by_namespace d' a) = (gates_iff c r).1 a
      back (is_root d' e) = absurd (clash c.dim dim_namespace dim_ownership refl d d')
      back (is_owned d' q w e) = absurd (clash c.dim dim_namespace dim_ownership refl d d')

  pub ownership-Tells :
      (members : List String)
      → c.dim ≡ dim_ownership
      → IsSubtree s c.root members
      → Tells (Covers s r c) (has_key members (key r))
  ownership-Tells members d t = (forth, back)
    where
      forth : has_key members (key r) ≡ true → Covers s r c
      forth h = elim (t.sound (key r) ((has_key_iff members (key r)).0 h)) [
        | inl e ↦ is_root d e
        | inr (q, w, e) ↦ is_owned d q w e
      ]

      back : Covers s r c → has_key members (key r) ≡ true
      back (by_name d' a m) = absurd (not_resource dim_ownership refl refl d d')
      back (by_labels d' a n o e m) = absurd (clash c.dim dim_ownership dim_selector refl d d')
      back (by_namespace d' a) = absurd (clash c.dim dim_ownership dim_namespace refl d d')
      back (is_root d' e) =
          (has_key_iff members (key r)).1 (subst (λ k. k ∈ members) (sym e) t.rooted)
      back (is_owned d' q w e) =
          (has_key_iff members (key r)).1 (subst (λ k. k ∈ members) e (t.complete q w))

  -- A clause of an unknown dimension covers nothing.
  pub unknown-Tells :
      c.dim ≢ ""
      → c.dim ≢ dim_resource
      → c.dim ≢ dim_selector
      → c.dim ≢ dim_namespace
      → c.dim ≢ dim_ownership
      → Tells (Covers s r c) false
  unknown-Tells n₀ n₁ n₂ n₃ n₄ = (λ h. absurd (cc), back)
    where
      back : Covers s r c → false ≡ true
      back (by_name d' a m) = elim d' [ inl p ↦ absurd (n₀ p) | inr p ↦ absurd (n₁ p) ]
      back (by_labels d' a n o e m) = absurd (n₂ d')
      back (by_namespace d' a) = absurd (n₃ d')
      back (is_root d' e) = absurd (n₄ d')
      back (is_owned d' q w e) = absurd (n₄ d')
