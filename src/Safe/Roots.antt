-- ===== src/Safe/Roots.antt =====
-- What the memo of `stateResolver`, which is keyed by the roots, asks of the roots of a scope.
use krsm.Prelude.{List, [], ◌∷◌, ◌≡◌, sym, ap, ◌∙◌, inl, inr, ◌∈◌, subst}
use krsm.Model.{Ref, key}
use krsm.Model.Clause.{ScopeClause}
use krsm.State.{State}
use krsm.Closure.Relation.{Identified}
use krsm.Safe.{start_of}

-- Roots with one key are one resource to the state, and keys stand for one tracked resource.
pub record RootsAgree (s : State) (us : List Ref) (scope : List ScopeClause) : Type 0 where
  pub one_start :
      (b c : ScopeClause)
      → b ∈ scope
      → c ∈ scope
      → key b.root ≡ key c.root
      → start_of s b.root ≡ start_of s c.root
  pub identified : (c : ScopeClause) → c ∈ scope → Identified (start_of s c.root ∷ us)

-- For one clause there is no second root to agree with.
pub single-RootsAgree :
    (s : State) (us : List Ref) (c : ScopeClause)
    → Identified (start_of s c.root ∷ us)
    → RootsAgree s us (c ∷ [])
single-RootsAgree s us c inj = record {
  one_start = λ x y hx hy e. same x hx ∙ sym (same y hy);
  identified = λ x hx. subst (λ r. Identified (r ∷ us)) (sym (same x hx)) inj;
}
  where
    same : (x : ScopeClause) → x ∈ c ∷ [] → start_of s x.root ≡ start_of s c.root
    same x (inl e) = ap (λ (y : ScopeClause). start_of s y.root) e
    same x (inr no_more) = absurd no_more

-- Two clauses whose roots have keys of their own.
pub pair-RootsAgree :
    (s : State) (us : List Ref) (b c : ScopeClause)
    → ¬ (key b.root ≡ key c.root)
    → Identified (start_of s b.root ∷ us)
    → Identified (start_of s c.root ∷ us)
    → RootsAgree s us (b ∷ c ∷ [])
pair-RootsAgree s us b c apart hb hc = record { one_start = starts; identified = identifies }
  where
    starts :
        (x y : ScopeClause)
        → x ∈ b ∷ c ∷ []
        → y ∈ b ∷ c ∷ []
        → key x.root ≡ key y.root
        → start_of s x.root ≡ start_of s y.root
    starts x y (inl p) (inl q) e = ap (λ (z : ScopeClause). start_of s z.root) (p ∙ sym q)
    starts x y (inl p) (inr (inl q)) e = absurd (
        apart (
          ap (λ (z : ScopeClause). key z.root) (sym p)
          ∙ e
          ∙ ap (λ (z : ScopeClause). key z.root) q))
    starts x y (inr (inl p)) (inl q) e = absurd (
        apart (
          ap (λ (z : ScopeClause). key z.root) (sym q)
          ∙ sym e
          ∙ ap (λ (z : ScopeClause). key z.root) p))
    starts x y (inr (inl p)) (inr (inl q)) e =
        ap (λ (z : ScopeClause). start_of s z.root) (p ∙ sym q)
    starts x y (inl p) (inr (inr no_more)) e = absurd no_more
    starts x y (inr (inl p)) (inr (inr no_more)) e = absurd no_more
    starts x y (inr (inr no_more)) hy e = absurd no_more

    identifies : (x : ScopeClause) → x ∈ b ∷ c ∷ [] → Identified (start_of s x.root ∷ us)
    identifies x (inl p) =
        subst (λ (z : ScopeClause). Identified (start_of s z.root ∷ us)) (sym p) hb
    identifies x (inr (inl p)) =
        subst (λ (z : ScopeClause). Identified (start_of s z.root ∷ us)) (sym p) hc
    identifies x (inr (inr no_more)) = absurd no_more
