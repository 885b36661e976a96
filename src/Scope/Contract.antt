-- ===== src/Scope/Contract.antt =====
-- scope/scope.go: `Compile` and `compileClause`.
use krsm.Scope.{
  CompileError, Severity, valid_severity, AllowClause, TaskContract, ScopePredicate, lowered,
  checked, compile_clause, compile_clauses, compile,
}
use krsm.Prelude.{
  true, List, [], ◌∷◌, map, ◌≡◌, refl, sym, ◌⊎◌, inl, inr, ◌↔◌, ◌∈◌, arith, eq_iff, subst,
  >>=-eq-ok, ok_injective, Result, ok, ◌>>=◌,
}
use krsm.Model.Clause.{
  ScopeClause, Validation, valid, invalid, validate, dim_resource, dim_selector,
}
use krsm.Model.Validity.{WellFormed, validate_iff}

-- A clause that the compiler takes: of a dimension that it knows, and well-formed once lowered.
pub record Accepted (ac : AllowClause) : Type 0 where
  pub dimension : (ac.dim ≡ "") ⊎ ((ac.dim ≡ dim_resource) ⊎ (ac.dim ≡ dim_selector))
  pub well_formed : WellFormed (lowered ac)

checked_iff : (c d : ScopeClause) (v : Validation) → (checked c v ≡ ok d) ↔ ((v ≡ valid) × (d ≡ c))
checked_iff c d valid = ground arith
checked_iff c d (invalid e) = ground arith

compile_clause_iff :
    (ac : AllowClause) (c : ScopeClause)
    → (compile_clause ac ≡ ok c) ↔ (Accepted ac × (c ≡ lowered ac))
unfolding compile_clause
compile_clause_iff ac c = (
  λ h. (
    record {
      dimension =
          ground (arith, eq_iff ac.dim "", eq_iff ac.dim dim_resource, eq_iff ac.dim dim_selector);
      well_formed =
          (validate_iff (lowered ac)).0
            (ground (arith, checked_iff (lowered ac) c (validate (lowered ac))));
    },
    ground (arith, checked_iff (lowered ac) c (validate (lowered ac))),
  ),
  λ (acc, e).
      let v = (validate_iff (lowered ac)).1 acc.well_formed in
      let d = acc.dimension in
      ground (
        arith,
        v,
        d,
        eq_iff ac.dim "",
        eq_iff ac.dim dim_resource,
        eq_iff ac.dim dim_selector,
        checked_iff (lowered ac) c (validate (lowered ac)),
      ),
)

abbrev AllAccepted : List AllowClause → Type 0
AllAccepted acs = (ac : AllowClause) → ac ∈ acs → Accepted ac

compile_clauses_sound :
    (acs : List AllowClause) (cs : List ScopeClause)
    → compile_clauses acs ≡ ok cs
    → AllAccepted acs × (cs ≡ map lowered acs)
unfolding compile_clauses
compile_clauses_sound [] cs h = (λ ac m. absurd m, cc)
compile_clauses_sound (ac ∷ acs) cs h =
    let (c, e, h') =
      >>=-eq-ok (compile_clause ac) (λ c. compile_clauses acs >>= λ rest. ok (c ∷ rest)) cs h in
    let (rest, f, h'') = >>=-eq-ok (compile_clauses acs) (λ rest. ok (c ∷ rest)) cs h' in
    let (acc, same) = (compile_clause_iff ac c).0 e in
    let (accs, sames) = compile_clauses_sound acs rest f in
    (λ x m. elim m [ inl p ↦ subst Accepted (sym p) acc | inr m' ↦ accs x m' ], cc)

compile_clauses_complete :
    (acs : List AllowClause) → AllAccepted acs → compile_clauses acs ≡ ok (map lowered acs)
unfolding compile_clauses
compile_clauses_complete [] h = refl
compile_clauses_complete (ac ∷ acs) h = rw (
  (compile_clause_iff ac (lowered ac)).1 (h ac (inl refl), refl),
  compile_clauses_complete acs (λ x m. h x (inr m)),
)

abbrev pub severities : List Severity
severities = "" ∷ "low" ∷ "medium" ∷ "high" ∷ "critical" ∷ []

valid_severity_iff : (s : Severity) → (valid_severity s ≡ true) ↔ (s ∈ severities)
unfolding valid_severity
valid_severity_iff s =
    ground
      (arith, eq_iff s "", eq_iff s "low", eq_iff s "medium", eq_iff s "high", eq_iff s "critical")

-- A contract that the compiler takes: the known version, kind and severity, and clauses that are
-- all accepted.
pub record Compilable (tc : TaskContract) : Type 0 where
  pub version : tc.api_version ≡ "krsm.io/v1"
  pub kind : tc.kind ≡ "TaskContract"
  pub severity : tc.spec.max_severity ∈ severities
  pub accepted : (ac : AllowClause) → ac ∈ tc.spec.allow_clauses → Accepted ac

abbrev with_clauses : TaskContract → List ScopeClause → ScopePredicate
with_clauses tc cs = record {
  clauses = cs;
  max_severity = tc.spec.max_severity;
  provenance = "contract";
}

abbrev pub compiled_to : TaskContract → ScopePredicate
compiled_to tc = with_clauses tc (map lowered tc.spec.allow_clauses)

-- `Compile` succeeds exactly on contracts of the known version, kind and severities whose clauses
-- are of a supported dimension and well-formed, and then it lowers every clause in order.
pub compile_iff :
    (tc : TaskContract) (p : ScopePredicate)
    → (compile tc ≡ ok p) ↔ (Compilable tc × (p ≡ compiled_to tc))
unfolding compile
compile_iff tc p = (forth, back)
  where
    finish : List ScopeClause → Result CompileError ScopePredicate
    finish cs = ok (with_clauses tc cs)

    forth : compile tc ≡ ok p → Compilable tc × (p ≡ compiled_to tc)
    forth h =
        let v : tc.api_version ≡ "krsm.io/v1" =
          ground (arith, eq_iff tc.api_version "krsm.io/v1") in
        let k : tc.kind ≡ "TaskContract" = ground (arith, eq_iff tc.kind "TaskContract") in
        let s : valid_severity tc.spec.max_severity ≡ true = ground arith in
        let rest : (compile_clauses tc.spec.allow_clauses >>= finish) ≡ ok p =
          rw (v, compile, k, s) at h in
        let (cs, e, f) = >>=-eq-ok (compile_clauses tc.spec.allow_clauses) finish p rest in
        let (acc, same) = compile_clauses_sound tc.spec.allow_clauses cs e in
        (
          record {
            version = v;
            kind = k;
            severity = (valid_severity_iff tc.spec.max_severity).0 s;
            accepted = acc;
          },
          cc (ok_injective (with_clauses tc cs) p f, same),
        )

    back : Compilable tc × (p ≡ compiled_to tc) → compile tc ≡ ok p
    back (c, e) = rw (
      c.version,
      compile,
      c.kind,
      (valid_severity_iff tc.spec.max_severity).1 c.severity,
      compile_clauses_complete tc.spec.allow_clauses c.accepted,
      e,
    )
