-- ===== src/Scenario/Sources.antt =====
-- internal/scenario/scenario.go: which file `loadScope` takes the scope from.
use krsm.Prelude.{
  String, List, map, ◌≡◌, refl, sym, ap, ◌∙◌, ◌⊎◌, inl, inr, ◌↔◌, subst, ok, Result-cases,
  ok_injective,
}
use krsm.Model.{Ref}
use krsm.Model.Clause.{ScopeClause}
use krsm.Scope.{TaskContract, ScopePredicate, lowered, compile, derive}
use krsm.Scope.Contract.{Compilable, compiled_to, compile_iff}
use krsm.Scenario.{
  FileRead, content, absent, failed, Yaml, scope_source_contract, scope_source_scope_yaml,
  scope_source_derived,
}
use krsm.Scenario.Clauses.{parse_scope, parse_task_contract}
use krsm.Scenario.Load.{from_contract, load_scope}

-- The scope of a directory: that of its contract, which compiles; without one, that of scope.yaml;
-- without either, the ownership tree of the target.
pub data ScopeOf (yaml : Yaml) (read : String → FileRead) (target : Ref)
    : List ScopeClause × String → Type 0 where
  declared :
      (raw : String) (tc : TaskContract)
      → read "taskcontract.yaml" ≡ content raw
      → parse_task_contract yaml raw ≡ ok tc
      → Compilable tc
      → ScopeOf yaml read target (map lowered tc.spec.allow_clauses, "taskcontract.yaml")
  listed :
      (raw : String) (clauses : List ScopeClause)
      → read "taskcontract.yaml" ≡ absent
      → read "scope.yaml" ≡ content raw
      → parse_scope yaml raw ≡ ok clauses
      → ScopeOf yaml read target (clauses, "scope.yaml")
  by_default :
      read "taskcontract.yaml" ≡ absent
      → read "scope.yaml" ≡ absent
      → ScopeOf yaml read target ((derive target).clauses, "derived (ownership-tree)")

pub FileRead-cases :
    (r : FileRead) → ((s : String) × (r ≡ content s)) ⊎ ((r ≡ absent) ⊎ (r ≡ failed))
FileRead-cases (content s) = inl (s, refl)
FileRead-cases absent = inr (inl refl)
FileRead-cases failed = inr (inr refl)

module _ (yaml : Yaml) (read : String → FileRead) (target : Ref) where
  from_contract-ScopeOf :
      (raw : String) (out : List ScopeClause × String)
      → read "taskcontract.yaml" ≡ content raw
      → from_contract yaml read raw ≡ ok out
      → ScopeOf yaml read target out
  from_contract-ScopeOf raw out e h = elim (Result-cases (parse_task_contract yaml raw)) [
    | inr (x, f) ↦ absurd (cc (rw f at h))
    | inl (tc, f) ↦ elim (Result-cases (compile tc)) [
      | inr (x, g) ↦ absurd (cc (rw (f, g) at h))
      | inl (pred, g) ↦
          let (c, same) = (compile_iff tc pred).0 g in
          let p : (pred.clauses, scope_source_contract) ≡ out =
            ok_injective (pred.clauses, scope_source_contract) out (rw (f, g) at h) in
          subst (ScopeOf yaml read target)
            (ap (λ (x : ScopePredicate). (x.clauses, scope_source_contract)) (sym same) ∙ p)
            (declared raw tc e f c)
    ]
  ]

  load_scope_of :
      (out : List ScopeClause × String)
      → ScopeOf yaml read target out
      → load_scope yaml read target ≡ ok out
  unfolding load_scope
  load_scope_of _ (declared raw tc e f c) =
      rw (load_scope, e, f, (compile_iff tc (compiled_to tc)).1 (c, refl))
  load_scope_of _ (listed raw cs e f g) = rw (load_scope, e, f, g)
  load_scope_of _ (by_default e f) = rw (load_scope, e, f)

  pub load_scope_iff :
      (out : List ScopeClause × String)
      → (load_scope yaml read target ≡ ok out) ↔ ScopeOf yaml read target out
  unfolding load_scope
  load_scope_iff out = (forth, back)
    where
      forth : load_scope yaml read target ≡ ok out → ScopeOf yaml read target out
      forth h = elim (FileRead-cases (read "taskcontract.yaml")) [
        | inl (raw, e) ↦ from_contract-ScopeOf raw out e (rw (load_scope, e) at h)
        | inr (inr e) ↦ absurd (cc (rw (load_scope, e) at h))
        | inr (inl e) ↦ elim (FileRead-cases (read "scope.yaml")) [
          | inl (raw, f) ↦ elim (Result-cases (parse_scope yaml raw)) [
            | inr (x, g) ↦ absurd (cc (rw (load_scope, e, f, g) at h))
            | inl (cs, g) ↦
                subst (ScopeOf yaml read target)
                  (ok_injective (cs, scope_source_scope_yaml) out (rw (load_scope, e, f, g) at h))
                  (listed raw cs e f g)
          ]
          | inr (inr f) ↦ absurd (cc (rw (load_scope, e, f) at h))
          | inr (inl f) ↦
              subst (ScopeOf yaml read target)
                (ok_injective ((derive target).clauses, scope_source_derived) out
                  (rw (load_scope, e, f) at h))
                (by_default e f)
        ]
      ]

      back : ScopeOf yaml read target out → load_scope yaml read target ≡ ok out
      back w = load_scope_of out w
