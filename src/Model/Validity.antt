-- ===== src/Model/Validity.antt =====
-- closure/model.go: `Validate` and the constructors of the clauses.
use krsm.Prelude.{
  String, Bool, true, false, List, [], ◌∷◌, ◌≡◌, refl, ◌≢◌, ◌⊎◌, inl, inr, ◌↔◌, arith, eq_iff,
  text_dec,
}
use krsm.Selector.{LabelSelector, is_empty, entries}
use krsm.Model.{Gvk, Ref, gvk_eq, ref_eq, no_gvk, no_ref}
use krsm.Model.Clause.{
  ScopeClause, dim_resource, dim_selector, dim_namespace, dim_ownership, resource_clause,
  selector_clause, namespace_clause, ownership_clause, Validation, valid, invalid, ClauseError,
  unknown_dimension, reject_if, has_selector, has_root, validate,
}

pub gvk_eq_iff : (g h : Gvk) → (gvk_eq g h ≡ true) ↔ (g ≡ h)
unfolding gvk_eq
gvk_eq_iff g h =
    ground (arith, eq_iff g.group h.group, eq_iff g.version h.version, eq_iff g.kind h.kind)

pub ref_eq_iff : (r q : Ref) → (ref_eq r q ≡ true) ↔ (r ≡ q)
unfolding ref_eq
ref_eq_iff r q = ground (
  arith,
  gvk_eq_iff r.gvk q.gvk,
  eq_iff r.namespace q.namespace,
  eq_iff r.name q.name,
  eq_iff r.uid q.uid,
)

-- The clause has no requirement in its selector.
abbrev pub Selectorless : ScopeClause → Type 0
Selectorless c = (entries c.selector.match_labels ≡ []) × (c.selector.match_expressions ≡ [])

-- The fields that each dimension reads, and no other, are set (docs/DESIGN.md, section 6).
pub data WellFormed (c : ScopeClause) : Type 0 where
  resource : (c.dim ≡ "") ⊎ (c.dim ≡ dim_resource) → Selectorless c → c.root ≡ no_ref → WellFormed c
  selector : c.dim ≡ dim_selector → c.name ≡ "" → c.root ≡ no_ref → WellFormed c
  namespace :
      c.dim ≡ dim_namespace
      → c.namespace ≢ ""
      → c.name ≡ ""
      → Selectorless c
      → c.root ≡ no_ref
      → WellFormed c
  ownership :
      c.dim ≡ dim_ownership
      → (c.root.gvk.kind ≢ "") × (c.root.name ≢ "")
      → c.name ≡ ""
      → Selectorless c
      → c.gvk ≡ no_gvk
      → c.namespace ≡ ""
      → WellFormed c

is_empty_iff {ℓ} : {A : Type ℓ} (l : List A) → (is_empty l ≡ true) ↔ (l ≡ [])
is_empty_iff [] = (λ h. refl, λ h. refl)
is_empty_iff (x ∷ l) = (λ h. cc, λ h. cc)

Selectorless-iff : (c : ScopeClause) → (has_selector c ≡ false) ↔ Selectorless c
unfolding has_selector
Selectorless-iff c = ground (
  arith,
  is_empty_iff (entries c.selector.match_labels),
  is_empty_iff c.selector.match_expressions,
)

has_root_iff : (c : ScopeClause) → (has_root c ≡ false) ↔ (c.root ≡ no_ref)
has_root_iff c = ground (arith, ref_eq_iff c.root no_ref)

-- A check that does not fire lets the rest decide.
reject_if_iff :
    (b : Bool) (e : ClauseError) (rest : Validation)
    → (reject_if b e rest ≡ valid) ↔ ((b ≡ false) × (rest ≡ valid))
reject_if_iff true e rest = ground arith
reject_if_iff false e rest = ground arith

-- The checks behind each dimension.
module _ (c : ScopeClause) where
  resource_checks :
      (c.dim ≡ "") ⊎ (c.dim ≡ dim_resource)
      → (validate c ≡ valid) ↔ (Selectorless c × (c.root ≡ no_ref))
  unfolding validate
  resource_checks d =
      ground (arith, eq_iff c.dim "", eq_iff c.dim dim_resource, Selectorless-iff c, has_root_iff c)

  selector_checks :
      c.dim ≡ dim_selector → (validate c ≡ valid) ↔ ((c.name ≡ "") × (c.root ≡ no_ref))
  unfolding validate
  selector_checks d = rw (d, validate) (ground (arith, eq_iff c.name "", has_root_iff c))

  namespace_checks :
      c.dim ≡ dim_namespace
      → (validate c ≡ valid)
        ↔ ((c.namespace ≢ "") × (c.name ≡ "") × Selectorless c × (c.root ≡ no_ref))
  unfolding validate
  namespace_checks d =
      rw (d, validate)
        (ground
          (arith, eq_iff c.namespace "", eq_iff c.name "", Selectorless-iff c, has_root_iff c))

  ownership_checks :
      c.dim ≡ dim_ownership
      → (validate c ≡ valid) ↔ (
          ((c.root.gvk.kind ≢ "") × (c.root.name ≢ ""))
          × (c.name ≡ "")
          × Selectorless c
          × (c.gvk ≡ no_gvk)
          × (c.namespace ≡ ""))
  unfolding validate
  ownership_checks d =
      rw (d, validate)
        (ground (
          arith,
          eq_iff c.root.gvk.kind "",
          eq_iff c.root.name "",
          eq_iff c.name "",
          Selectorless-iff c,
          gvk_eq_iff c.gvk no_gvk,
          eq_iff c.namespace "",
        ))

  -- Any other dimension is rejected, not read as another.
  unknown_checks :
      c.dim ≢ ""
      → c.dim ≢ dim_resource
      → c.dim ≢ dim_selector
      → c.dim ≢ dim_namespace
      → c.dim ≢ dim_ownership
      → validate c ≡ invalid unknown_dimension
  unfolding validate
  unknown_checks n₀ n₁ n₂ n₃ n₄ = ground (
    arith,
    eq_iff c.dim "",
    eq_iff c.dim dim_resource,
    eq_iff c.dim dim_selector,
    eq_iff c.dim dim_namespace,
    eq_iff c.dim dim_ownership,
  )

  not_WellFormed :
      c.dim ≢ ""
      → c.dim ≢ dim_resource
      → c.dim ≢ dim_selector
      → c.dim ≢ dim_namespace
      → c.dim ≢ dim_ownership
      → ¬ WellFormed c
  not_WellFormed n₀ n₁ n₂ n₃ n₄ (resource d s r) = elim d [ inl e ↦ n₀ e | inr e ↦ n₁ e ]
  not_WellFormed n₀ n₁ n₂ n₃ n₄ (selector d n r) = n₂ d
  not_WellFormed n₀ n₁ n₂ n₃ n₄ (namespace d n m s r) = n₃ d
  not_WellFormed n₀ n₁ n₂ n₃ n₄ (ownership d k n s g m) = n₄ d

  validate_sound : validate c ≡ valid → WellFormed c
  validate_sound h = elim (text_dec c.dim "") [
    | inl d ↦ let (s, r) = (resource_checks (inl d)).0 h in resource (inl d) s r
    | inr n₀ ↦ elim (text_dec c.dim dim_resource) [
      | inl d ↦ let (s, r) = (resource_checks (inr d)).0 h in resource (inr d) s r
      | inr n₁ ↦ elim (text_dec c.dim dim_selector) [
        | inl d ↦ let (n, r) = (selector_checks d).0 h in selector d n r
        | inr n₂ ↦ elim (text_dec c.dim dim_namespace) [
          | inl d ↦ let (m, n, s, r) = (namespace_checks d).0 h in namespace d m n s r
          | inr n₃ ↦ elim (text_dec c.dim dim_ownership) [
            | inl d ↦ let (k, n, s, g, m) = (ownership_checks d).0 h in ownership d k n s g m
            | inr n₄ ↦ absurd (cc (h, unknown_checks n₀ n₁ n₂ n₃ n₄))
          ]
        ]
      ]
    ]
  ]

  validate_complete : WellFormed c → validate c ≡ valid
  validate_complete (resource d s r) = (resource_checks d).1 (s, r)
  validate_complete (selector d n r) = (selector_checks d).1 (n, r)
  validate_complete (namespace d m n s r) = (namespace_checks d).1 (m, n, s, r)
  validate_complete (ownership d k n s g m) = (ownership_checks d).1 (k, n, s, g, m)

-- `Validate` accepts exactly the clauses that set the fields that their dimension requires and
-- none that another dimension reads.
pub validate_iff : (c : ScopeClause) → (validate c ≡ valid) ↔ WellFormed c
validate_iff c = (validate_sound c, validate_complete c)

-- Resource and selector clauses as constructed are valid, a namespace clause exactly if its
-- namespace is not empty, and an ownership clause exactly if its root has a kind and a name.
pub constructors_valid :
    (gvk : Gvk) (ns name : String) (sel : LabelSelector) (root : Ref)
    → (validate (resource_clause gvk ns name) ≡ valid)
      × (validate (selector_clause gvk ns sel) ≡ valid)
      × ((validate (namespace_clause gvk ns) ≡ valid) ↔ (ns ≢ ""))
      × ((validate (ownership_clause root) ≡ valid) ↔ ((root.gvk.kind ≢ "") × (root.name ≢ "")))
unfolding resource_clause selector_clause namespace_clause ownership_clause
constructors_valid gvk ns name sel root = (
  validate_complete (resource_clause gvk ns name) (resource (inr refl) (refl, refl) refl),
  validate_complete (selector_clause gvk ns sel) (selector refl refl refl),
  (
    λ h. ((namespace_checks (namespace_clause gvk ns) refl).0 h).0,
    λ n. validate_complete (namespace_clause gvk ns) (namespace refl n refl (refl, refl) refl),
  ),
  (
    λ h. ((ownership_checks (ownership_clause root) refl).0 h).0,
    λ k. validate_complete (ownership_clause root) (ownership refl k refl (refl, refl) refl refl),
  ),
)
