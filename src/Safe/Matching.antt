-- ===== src/Safe/Matching.antt =====
-- closure/safe.go: `matchScope` and the loop of `Safe` over the closure, with the memo passed along.
use krsm.Prelude.{
  ℕ, suc, String, Bool, true, false, ◌&&◌, some, List, [], ◌∷◌, ◌≡◌, refl, sym, ◌≢◌, inl, inr, ◌↔◌,
  ◌∈◌, ◌==◌, eq_iff, Bool-cases, if◌then◌else◌, has_key, lookup, subst, length,
}
use krsm.Model.{Ref, key}
use krsm.Model.Clause.{ScopeClause, dim_resource, dim_selector, dim_namespace, dim_ownership}
use krsm.State.{State}
use krsm.State.Laws.{IsOver}
use krsm.Glob.{glob_match}
use krsm.Safe.{
  Memo, pure, ◌>>=◌, labels, owned_subtree, dim_of, gates, match_selector_clause, match_clause,
  match_scope, escapes,
}
use krsm.Safe.Memo.{IsMemo, Answers, pure-Answers, >>=-Answers, owned_subtree-Answers}
use krsm.Safe.Roots.{RootsAgree}
use krsm.Safe.Covers.{Covers, Covered}
use krsm.Safe.Subtree.{IsSubtree}
use krsm.Safe.Tells.{
  Tells, resource-Tells, selector-Tells, namespace-Tells, ownership-Tells, unknown-Tells,
}

module _ (s : State) (us : List Ref) (over : IsOver s us) (all_clauses : List ScopeClause)
    (agree : RootsAgree s us all_clauses) where
  abbrev fuel : ℕ
  fuel = suc (length us)

  -- A test of the dimension that fails.
  dim_ne : (d x : String) → (d == x) ≡ false → d ≢ x
  dim_ne d x e h = cc (e, (eq_iff d x).1 h)

  -- A clause that is no resource clause is dispatched on its own dimension.
  dispatch :
      (r : Ref) (c : ScopeClause) (memo : Memo)
      → c ∈ all_clauses
      → IsMemo s all_clauses memo
      → (c.dim == "") ≡ false
      → Answers s all_clauses (Tells (Covers s r c)) (match_clause fuel s r c memo)
  unfolding match_clause dim_of
  dispatch r c memo hc good e = elim (Bool-cases (c.dim == dim_resource)) [
    | inl d ↦
        rw (e, match_clause, d)
          (pure-Answers s all_clauses (Tells (Covers s r c)) (gates c r && glob_match c.name r.name)
            memo (resource-Tells s r c (inr ((eq_iff c.dim dim_resource).0 d))) good)
    | inr n₁ ↦ elim (Bool-cases (c.dim == dim_selector)) [
      | inl d ↦
          rw (e, match_clause, n₁, d)
            (pure-Answers s all_clauses (Tells (Covers s r c))
              (gates c r && match_selector_clause c r (labels s)) memo
              (selector-Tells s r c ((eq_iff c.dim dim_selector).0 d)) good)
      | inr n₂ ↦ elim (Bool-cases (c.dim == dim_namespace)) [
        | inl d ↦
            rw (e, match_clause, n₁, n₂, d)
              (pure-Answers s all_clauses (Tells (Covers s r c)) (gates c r) memo
                (namespace-Tells s r c ((eq_iff c.dim dim_namespace).0 d)) good)
        | inr n₃ ↦ elim (Bool-cases (c.dim == dim_ownership)) [
          | inl d ↦
              rw (e, match_clause, n₁, n₂, n₃, d)
                (>>=-Answers s all_clauses (IsSubtree s c.root) (Tells (Covers s r c))
                  (owned_subtree fuel s c.root) (λ ms. pure (has_key ms (key r))) memo
                  (owned_subtree-Answers s us over all_clauses agree c memo hc good)
                  (λ ms memo' t good'.
                    pure-Answers s all_clauses (Tells (Covers s r c)) (has_key ms (key r)) memo'
                      (ownership-Tells s r c ms ((eq_iff c.dim dim_ownership).0 d) t) good'))
          | inr n₄ ↦
              rw (e, match_clause, n₁, n₂, n₃, n₄)
                (pure-Answers s all_clauses (Tells (Covers s r c)) false memo
                  (unknown-Tells s r c (dim_ne c.dim "" e) (dim_ne c.dim dim_resource n₁)
                    (dim_ne c.dim dim_selector n₂) (dim_ne c.dim dim_namespace n₃)
                    (dim_ne c.dim dim_ownership n₄))
                  good)
        ]
      ]
    ]
  ]

  match_clause-Answers :
      (r : Ref) (c : ScopeClause) (memo : Memo)
      → c ∈ all_clauses
      → IsMemo s all_clauses memo
      → Answers s all_clauses (Tells (Covers s r c)) (match_clause fuel s r c memo)
  unfolding match_clause dim_of
  match_clause-Answers r c memo hc good = elim (Bool-cases (c.dim == "")) [
    | inl e ↦
        rw (e, match_clause)
          (pure-Answers s all_clauses (Tells (Covers s r c)) (gates c r && glob_match c.name r.name)
            memo (resource-Tells s r c (inl ((eq_iff c.dim "").0 e))) good)
    | inr e ↦ dispatch r c memo hc good e
  ]

  CoveredTells-cons :
      (r : Ref) (c : ScopeClause) (scope : List ScopeClause) (b : Bool)
      → Tells (Covers s r c) false
      → Tells (Covered s scope r) b
      → Tells (Covered s (c ∷ scope) r) b
  CoveredTells-cons r c scope b n t = (
    λ h. let (d, m, w) = t.0 h in (d, inr m, w),
    λ (d, m, w). elim m [
      | inl e ↦ absurd (cc (n.1 (subst (Covers s r) e w)))
      | inr m' ↦ t.1 (d, m', w)
    ],
  )

  -- The early return after a clause that covers, and the rest of the loop otherwise.
  after_clause-Answers :
      (r : Ref) (c : ScopeClause) (scope : List ScopeClause)
      → ((memo : Memo)
          → IsMemo s all_clauses memo
          → Answers s all_clauses (Tells (Covered s scope r)) (match_scope fuel s r scope memo))
      → (ok : Bool) (memo : Memo) → Tells (Covers s r c) ok
      → IsMemo s all_clauses memo
      → Answers s all_clauses
          (Tells (Covered s (c ∷ scope) r))
          ((if ok then pure true else match_scope fuel s r scope) memo)
  after_clause-Answers r c scope rest true memo t good =
      pure-Answers s all_clauses (Tells (Covered s (c ∷ scope) r)) true memo
        (λ _. (c, inl refl, t.0 refl), λ _. refl) good
  after_clause-Answers r c scope rest false memo t good =
      let a = rest memo good in
      record {
        value = a.value;
        memo = a.memo;
        returns = a.returns;
        right = CoveredTells-cons r c scope a.value t a.right;
        kept = a.kept;
      }

  match_scope-Answers :
      (r : Ref) (scope : List ScopeClause) (memo : Memo)
      → ((c : ScopeClause) → c ∈ scope → c ∈ all_clauses)
      → IsMemo s all_clauses memo
      → Answers s all_clauses (Tells (Covered s scope r)) (match_scope fuel s r scope memo)
  unfolding match_scope
  match_scope-Answers r [] memo sub good =
      pure-Answers s all_clauses (Tells (Covered s [] r)) false memo
        (λ h. absurd (cc), λ (c, m, w). absurd m) good
  match_scope-Answers r (c ∷ scope) memo sub good =
      let rest = λ (memo' : Memo) (good' : IsMemo s all_clauses memo').
        match_scope-Answers r scope memo' (λ d m. sub d (inr m)) good' in
      >>=-Answers s all_clauses (Tells (Covers s r c)) (Tells (Covered s (c ∷ scope) r))
        (match_clause fuel s r c) (λ ok. if ok then pure true else match_scope fuel s r scope) memo
        (match_clause-Answers r c memo (sub c (inl refl)) good)
        (after_clause-Answers r c scope rest)

  -- Exactly the members that no clause covers.
  abbrev Escaped : List Ref → List Ref → Type 0
  Escaped rs escaped = (q : Ref) → (q ∈ escaped) ↔ ((q ∈ rs) × (¬ Covered s all_clauses q))

  Escaped-cons :
      (r : Ref) (rs rest : List Ref) (ok : Bool)
      → Tells (Covered s all_clauses r) ok
      → Escaped rs rest
      → Escaped (r ∷ rs) (if ok then rest else r ∷ rest)
  Escaped-cons r rs rest true t h q = (
    λ m. let (k, n) = (h q).0 m in (inr k, n),
    λ (k, n). elim k [
      | inl e ↦ absurd (n (subst (Covered s all_clauses) (sym e) (t.0 refl)))
      | inr k' ↦ (h q).1 (k', n)
    ],
  )
  Escaped-cons r rs rest false t h q = (
    λ m. elim m [
      | inl e ↦ (inl e, λ w. cc (t.1 (subst (Covered s all_clauses) e w)))
      | inr m' ↦ let (k, n) = (h q).0 m' in (inr k, n)
    ],
    λ (k, n). elim k [ inl e ↦ inl e | inr k' ↦ inr ((h q).1 (k', n)) ],
  )

  escapes-Answers :
      (rs : List Ref) (memo : Memo)
      → IsMemo s all_clauses memo
      → Answers s all_clauses (Escaped rs) (escapes fuel s all_clauses rs memo)
  unfolding escapes
  escapes-Answers [] memo good =
      pure-Answers s all_clauses (Escaped []) [] memo (λ q. (λ m. absurd m, λ (m, _). m)) good
  escapes-Answers (r ∷ rs) memo good =
      >>=-Answers s all_clauses (Tells (Covered s all_clauses r)) (Escaped (r ∷ rs))
        (match_scope fuel s r all_clauses)
        (λ ok. escapes fuel s all_clauses rs >>= λ rest. pure (if ok then rest else r ∷ rest)) memo
        (match_scope-Answers r all_clauses memo (λ c m. m) good)
        (λ ok memo' t good'.
          >>=-Answers s all_clauses (Escaped rs) (Escaped (r ∷ rs)) (escapes fuel s all_clauses rs)
            (λ rest. pure (if ok then rest else r ∷ rest)) memo' (escapes-Answers rs memo' good')
            (λ rest memo'' h good''.
              pure-Answers s all_clauses (Escaped (r ∷ rs)) (if ok then rest else r ∷ rest) memo''
                (Escaped-cons r rs rest ok t h) good''))

  -- From an empty memo the loop over the closure returns exactly the members that escape.
  pub escapes_exact :
      (rs : List Ref)
      → (escaped : List Ref) × (memo : Memo) × (escapes fuel s all_clauses rs []
          ≡ some (escaped, memo))
        × ((q : Ref) → (q ∈ escaped) ↔ ((q ∈ rs) × (¬ Covered s all_clauses q)))
  unfolding lookup
  escapes_exact rs =
      let a = escapes-Answers rs [] (λ k ms h. absurd (cc)) in (a.value, a.memo, a.returns, a.right)

  -- Over a state that answers with listed references only, where roots with one key start in one
  -- place and keys identify the references, `matchScope` from the empty memo returns with one unit
  -- of fuel more than the list is long, and says yes exactly if some clause covers the resource.
  pub match_scope_exact :
      (r : Ref)
      → (b : Bool) × (memo : Memo) × (match_scope fuel s r all_clauses [] ≡ some (b, memo))
        × ((b ≡ true) ↔ Covered s all_clauses r)
  unfolding lookup
  match_scope_exact r =
      let a = match_scope-Answers r all_clauses [] (λ c m. m) (λ k ms h. absurd (cc)) in
      (a.value, a.memo, a.returns, a.right)
