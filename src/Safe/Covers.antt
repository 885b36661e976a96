-- ===== src/Safe/Covers.antt =====
-- When a clause covers a resource, by its dimension, with no memo and no loop (docs/DESIGN.md,
-- section 6), and the tests of the code that decide the parts of it.
use krsm.Prelude.{
  String, true, false, some, List, [], ◌∷◌, ◌≡◌, refl, ◌≢◌, ◌⊎◌, inl, inr, ◌↔◌, ◌∈◌, arith, ◌==◌,
  eq_iff, Option-cases,
}
use krsm.Selector.{is_empty, entries, matches}
use krsm.Model.{Ref, Object, key}
use krsm.Model.Clause.{ScopeClause, dim_resource, dim_selector, dim_namespace, dim_ownership}
use krsm.State.{State}
use krsm.Walk.Reach.{Reach}
use krsm.Glob.{glob_match}
use krsm.Safe.{labels, start_of, gates, match_selector_clause}

-- A field of the gate admits a value if it is empty or the same.
abbrev pub Fits : String → String → Type 0
Fits gate value = (gate ≡ "") ⊎ (gate ≡ value)

pub record Admits (sc : ScopeClause) (r : Ref) : Type 0 where
  pub kind : Fits sc.gvk.kind r.gvk.kind
  pub group : Fits sc.gvk.group r.gvk.group
  pub version : Fits sc.gvk.version r.gvk.version
  pub namespace : sc.namespace ≡ r.namespace

-- The root and all that it owns, directly or not.
abbrev pub Owned : State → Ref → Ref → Type 0
Owned s root r = Reach s.owned_children (start_of s root ∷ []) r

pub data Covers (s : State) (r : Ref) (sc : ScopeClause) : Type 0 where
  by_name :
      (sc.dim ≡ "") ⊎ (sc.dim ≡ dim_resource)
      → Admits sc r
      → glob_match sc.name r.name ≡ true
      → Covers s r sc
  by_labels :
      sc.dim ≡ dim_selector
      → Admits sc r
      → (entries sc.selector.match_labels ≢ []) ⊎ (sc.selector.match_expressions ≢ [])
      → (o : Object) → s.get r ≡ some o
      → matches sc.selector o.labels ≡ true
      → Covers s r sc
  by_namespace : sc.dim ≡ dim_namespace → Admits sc r → Covers s r sc
  is_root : sc.dim ≡ dim_ownership → key r ≡ key sc.root → Covers s r sc
  is_owned : sc.dim ≡ dim_ownership → (q : Ref) → Owned s sc.root q → key q ≡ key r → Covers s r sc

-- Some clause of the scope covers the resource.
abbrev pub Covered : State → List ScopeClause → Ref → Type 0
Covered s scope r = (sc : ScopeClause) × (sc ∈ scope) × Covers s r sc

pub gates_iff : (sc : ScopeClause) (r : Ref) → (gates sc r ≡ true) ↔ Admits sc r
unfolding gates
gates_iff sc r = (
  λ h. record {
    kind = ground (arith, facts);
    group = ground (arith, facts);
    version = ground (arith, facts);
    namespace = ground (arith, facts);
  },
  λ h. ground (arith, facts),
)
  where
    facts :
        (((sc.gvk.kind == "") ≡ true) ↔ (sc.gvk.kind ≡ ""))
        × (((sc.gvk.kind == r.gvk.kind) ≡ true) ↔ (sc.gvk.kind ≡ r.gvk.kind))
        × (((sc.gvk.group == "") ≡ true) ↔ (sc.gvk.group ≡ ""))
        × (((sc.gvk.group == r.gvk.group) ≡ true) ↔ (sc.gvk.group ≡ r.gvk.group))
        × (((sc.gvk.version == "") ≡ true) ↔ (sc.gvk.version ≡ ""))
        × (((sc.gvk.version == r.gvk.version) ≡ true) ↔ (sc.gvk.version ≡ r.gvk.version))
        × (((sc.namespace == r.namespace) ≡ true) ↔ (sc.namespace ≡ r.namespace))
    facts = (
      eq_iff sc.gvk.kind "",
      eq_iff sc.gvk.kind r.gvk.kind,
      eq_iff sc.gvk.group "",
      eq_iff sc.gvk.group r.gvk.group,
      eq_iff sc.gvk.version "",
      eq_iff sc.gvk.version r.gvk.version,
      eq_iff sc.namespace r.namespace,
    )

is_empty_cases :
    {A : Type 0} (l : List A) → ((is_empty l ≡ true) × (l ≡ [])) ⊎ ((is_empty l ≡ false) × (l ≢ []))
is_empty_cases [] = inl (refl, refl)
is_empty_cases (x ∷ l) = inr (refl, λ e. cc)

-- The selector test passes for a tracked resource whose labels match a selector that is not empty.
pub match_selector_clause_iff :
    (s : State) (sc : ScopeClause) (r : Ref)
    → (match_selector_clause sc r (labels s) ≡ true) ↔ (
        ((entries sc.selector.match_labels ≢ []) ⊎ (sc.selector.match_expressions ≢ []))
        × ((o : Object) × (s.get r ≡ some o) × (matches sc.selector o.labels ≡ true)))
unfolding match_selector_clause labels
match_selector_clause_iff s sc r = (forth, back)
  where
    forth :
        match_selector_clause sc r (labels s) ≡ true
        → ((entries sc.selector.match_labels ≢ []) ⊎ (sc.selector.match_expressions ≢ []))
          × ((o : Object) × (s.get r ≡ some o) × (matches sc.selector o.labels ≡ true))
    forth h = elim (Option-cases (s.get r)) [
      | inl e ↦ ground (
        arith,
        is_empty_cases (entries sc.selector.match_labels),
        is_empty_cases sc.selector.match_expressions,
      )
      | inr (o, e) ↦ (
        ground (
          arith,
          is_empty_cases (entries sc.selector.match_labels),
          is_empty_cases sc.selector.match_expressions,
        ),
        (
          o,
          e,
          ground (
            arith,
            is_empty_cases (entries sc.selector.match_labels),
            is_empty_cases sc.selector.match_expressions,
          ),
        ),
      )
    ]

    back :
        ((entries sc.selector.match_labels ≢ []) ⊎ (sc.selector.match_expressions ≢ []))
          × ((o : Object) × (s.get r ≡ some o) × (matches sc.selector o.labels ≡ true))
        → match_selector_clause sc r (labels s) ≡ true
    back (w, (o, e, m)) = ground (
      arith,
      is_empty_cases (entries sc.selector.match_labels),
      is_empty_cases sc.selector.match_expressions,
    )
