-- ===== src/Scenario/Vetted.antt =====
-- internal/scenario/scenario.go: what `parseScope` lets through.
use krsm.Prelude.{
  suc, ne, String, Bool, true, false, not, ◌&&◌, ◌||◌, some, List, [], ◌∷◌, length, ◌≡◌, refl, sym,
  ap, ◌∙◌, ◌≢◌, ◌⊎◌, inl, inr, ◌∈◌, subst, arith, Bool-cases, Option-cases, ◌==◌, Json, ok,
  Result-cases, ok_injective, ◌>>=◌, >>=-eq-ok,
}
use krsm.Selector.{LabelSelector, is_empty, entries}
use krsm.Model.{Ref, no_ref}
use krsm.Model.Clause.{
  ScopeClause, Validation, valid, invalid, validate, ownership_clause, dim_selector, dim_ownership,
  no_selector,
}
use krsm.Model.Validity.{WellFormed, validate_iff}
use krsm.Scenario.{RawScopeClause, Yaml, uid_of}
use krsm.Scenario.Decode.{decode_scope_clause}
use krsm.Scenario.Selectors.{match_labels, scope_selector_from}
use krsm.Scenario.Clauses.{
  resolved, validated, is_set, ownership_from, named_clause, named_from, selector_if,
  scope_clause_from, scope_clauses_from, parse_scope,
}

-- A selector of a scope is nil or it requires something: none is present and empty.
abbrev pub Requires : LabelSelector → Type 0
Requires sel = (sel ≡ no_selector) ⊎ (is_set sel ≡ true)

scope_selector_from-Requires :
    (raw : Json) (sel : LabelSelector) → scope_selector_from raw ≡ ok sel → Requires sel
unfolding scope_selector_from
scope_selector_from-Requires raw sel h = elim (Result-cases (match_labels (some raw))) [
  | inr (x, e) ↦ absurd (cc (rw (scope_selector_from, e) at h))
  | inl (s, e) ↦
      elim (Bool-cases (is_empty (entries s.match_labels) && is_empty s.match_expressions)) [
        | inl f ↦ inl (sym (ok_injective no_selector sel (rw (scope_selector_from, e, f) at h)))
        | inr f ↦
            let p : s ≡ sel = ok_injective s sel (rw (scope_selector_from, e, f) at h) in
            inr (subst (λ x. is_set x ≡ true) p (ground (arith, f)))
      ]
]

-- What a clause of a loaded scope is, whatever the file says.
pub record Vetted (c : ScopeClause) : Type 0 where
  pub well_formed : WellFormed c
  pub selector : Requires c.selector
  pub root :
      ((c.dim ≢ dim_ownership) × (c.root ≡ no_ref))
      ⊎ ((c.dim ≡ dim_ownership)
          × (c.root.uid ≡ uid_of c.root.gvk.kind c.root.namespace c.root.name))

validated-ok : (c d : ScopeClause) (v : Validation) → validated c v ≡ ok d → (v ≡ valid) × (c ≡ d)
validated-ok c d valid h = (refl, ok_injective c d h)
validated-ok c d (invalid e) h = absurd (cc)

ownership_from-Vetted :
    (raw : Json) (rc : RawScopeClause) (c : ScopeClause)
    → ownership_from raw rc ≡ ok c
    → (r : Ref) × (c ≡ ownership_clause r) × (r.uid ≡ uid_of r.gvk.kind r.namespace r.name)
unfolding ownership_from resolved
ownership_from-Vetted raw rc c h = elim (Option-cases rc.root) [
  | inl e ↦ absurd (cc (rw (ownership_from, e) at h))
  | inr (root, e) ↦
      elim (Bool-cases (not (rc.group == "") || (not (rc.version == "") || not (rc.kind == "")))) [
        | inl g ↦ absurd (cc (rw (ownership_from, e, g) at h))
        | inr g ↦ elim (Bool-cases (not (rc.namespace == ""))) [
          | inl n ↦ absurd (cc (rw (ownership_from, e, g, n) at h))
          | inr n ↦ elim (Bool-cases (not (rc.name == ""))) [
            | inl m ↦ absurd (cc (rw (ownership_from, e, g, n, m) at h))
            | inr m ↦ elim (Result-cases (scope_selector_from raw)) [
              | inr (x, f) ↦ absurd (cc (rw (ownership_from, e, g, n, m, f) at h))
              | inl (sel, f) ↦ elim (Bool-cases (is_set sel)) [
                | inl t ↦ absurd (cc (rw (ownership_from, e, g, n, m, f, t) at h))
                | inr t ↦ (
                  resolved root,
                  sym (
                      ok_injective (ownership_clause (resolved root)) c
                        (rw (ownership_from, e, g, n, m, f, t) at h)),
                  refl,
                )
              ]
            ]
          ]
        ]
      ]
]

selector_if-Requires :
    (b : Bool) (raw : Json) (sel : LabelSelector) → selector_if b raw ≡ ok sel → Requires sel
selector_if-Requires true raw sel h = scope_selector_from-Requires raw sel h
selector_if-Requires false raw sel h = inl (sym (ok_injective no_selector sel h))

named_from-Vetted :
    (raw : Json) (rc : RawScopeClause) (c : ScopeClause)
    → named_from raw rc ≡ ok c
    → (sel : LabelSelector) × (c ≡ named_clause rc sel) × Requires sel
unfolding named_from
named_from-Vetted raw rc c h = elim (Option-cases rc.root) [
  | inr (r, e) ↦ absurd (cc (rw (named_from, e) at h))
  | inl e ↦ elim (Result-cases (selector_if (rc.dim == dim_selector) raw)) [
    | inr (x, f) ↦ absurd (cc (rw (named_from, e, f) at h))
    | inl (sel, f) ↦ (
      sel,
      sym (ok_injective (named_clause rc sel) c (rw (named_from, e, f) at h)),
      selector_if-Requires (rc.dim == dim_selector) raw sel f,
    )
  ]
]

validated-WellFormed :
    (c d : ScopeClause) → validated c (validate c) ≡ ok d → WellFormed d × (c ≡ d)
validated-WellFormed c d h =
    let (v, e) = validated-ok c d (validate c) h in (subst WellFormed e ((validate_iff c).0 v), e)

ownership-Vetted :
    (c d : ScopeClause) (r : Ref)
    → c ≡ ownership_clause r
    → r.uid ≡ uid_of r.gvk.kind r.namespace r.name
    → validated c (validate c) ≡ ok d
    → Vetted d
unfolding ownership_clause
ownership-Vetted c d r e u h =
    let (w, p) = validated-WellFormed c d h in
    let q = sym e ∙ p in
    record {
      well_formed = w;
      selector = inl (ap (λ (x : ScopeClause). x.selector) (sym q));
      root = inr (
        ap (λ (x : ScopeClause). x.dim) (sym q),
        subst
            (λ (x : ScopeClause). x.root.uid ≡ uid_of x.root.gvk.kind x.root.namespace x.root.name)
            q u,
      );
    }

named-Vetted :
    (rc : RawScopeClause) (c d : ScopeClause) (sel : LabelSelector)
    → rc.dim ≢ dim_ownership
    → c ≡ named_clause rc sel
    → Requires sel
    → validated c (validate c) ≡ ok d
    → Vetted d
named-Vetted rc c d sel n e s h =
    let (w, p) = validated-WellFormed c d h in
    let q = sym e ∙ p in
    record {
      well_formed = w;
      selector = subst (λ (x : ScopeClause). Requires x.selector) q s;
      root = inl (
        λ f. n (ap (λ (x : ScopeClause). x.dim) q ∙ f),
        ap (λ (x : ScopeClause). x.root) (sym q),
      );
    }

scope_clause_from-Vetted : (raw : Json) (d : ScopeClause) → scope_clause_from raw ≡ ok d → Vetted d
unfolding scope_clause_from
scope_clause_from-Vetted raw d h = elim (Option-cases (decode_scope_clause raw)) [
  | inl e ↦ absurd (cc (rw (scope_clause_from, e) at h))
  | inr (rc, e) ↦ elim (Bool-cases (rc.dim == dim_ownership)) [
    | inl o ↦ elim (Result-cases (ownership_from raw rc)) [
      | inr (x, f) ↦ absurd (cc (rw (scope_clause_from, e, o, f) at h))
      | inl (c, f) ↦
          let (r, same, u) = ownership_from-Vetted raw rc c f in
          ownership-Vetted c d r same u (rw (scope_clause_from, e, o, f) at h)
    ]
    | inr o ↦ elim (Result-cases (named_from raw rc)) [
      | inr (x, f) ↦ absurd (cc (rw (scope_clause_from, e, o, f) at h))
      | inl (c, f) ↦
          let (sel, same, s) = named_from-Vetted raw rc c f in
          named-Vetted rc c d sel (ne rc.dim dim_ownership o) same s
            (rw (scope_clause_from, e, o, f) at h)
    ]
  ]
]

scope_clauses_from-Vetted :
    (raws : List Json) (cs : List ScopeClause)
    → scope_clauses_from raws ≡ ok cs
    → (length cs ≡ length raws) × ((c : ScopeClause) → c ∈ cs → Vetted c)
unfolding scope_clauses_from
scope_clauses_from-Vetted [] cs h =
    let e = ok_injective [] cs h in
    (ap length (sym e), λ c m. absurd (subst (λ l. c ∈ l) (sym e) m))
scope_clauses_from-Vetted (raw ∷ raws) cs h =
    let (c, e, f) =
      >>=-eq-ok (scope_clause_from raw) (λ c. scope_clauses_from raws >>= λ rest. ok (c ∷ rest)) cs
        h in
    let (rest, e', f') = >>=-eq-ok (scope_clauses_from raws) (λ rest. ok (c ∷ rest)) cs f in
    let same = ok_injective (c ∷ rest) cs f' in
    let (n, all) = scope_clauses_from-Vetted raws rest e' in
    (
      ap length (sym same) ∙ ap suc n,
      λ x m. elim (subst (λ l. x ∈ l) (sym same) m) [
        | inl p ↦ subst Vetted (sym p) (scope_clause_from-Vetted raw c e)
        | inr k ↦ all x k
      ],
    )

-- A scope that `parseScope` returns has one clause for each entry of the file, and every clause is
-- well-formed, its selector is nil or requires something, and a root is on an ownership clause
-- only, with the uid of its names.
pub parse_scope-Vetted :
    (yaml : Yaml) (raw : String) (cs : List ScopeClause)
    → parse_scope yaml raw ≡ ok cs
    → (raws : List Json) × (yaml.scope raw ≡ some raws)
      × (length cs ≡ length raws)
      × ((c : ScopeClause) → c ∈ cs → Vetted c)
unfolding parse_scope
parse_scope-Vetted yaml raw cs h = elim (Option-cases (yaml.scope raw)) [
  | inl e ↦ absurd (cc (rw (parse_scope, e) at h))
  | inr (raws, e) ↦
      let (n, all) = scope_clauses_from-Vetted raws cs (rw (parse_scope, e) at h) in
      (raws, e, n, all)
]
