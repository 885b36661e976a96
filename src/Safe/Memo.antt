-- ===== src/Safe/Memo.antt =====
-- closure/safe.go: the memo of owned subtrees in `stateResolver`.
use krsm.Prelude.{
  ℕ, suc, String, Option, some, List, [], ◌∷◌, ◌≡◌, refl, sym, ◌∙◌, inl, inr, ◌∈◌, ◌==◌, eq_iff,
  Bool-cases, if◌then◌else◌, Option-cases, lookup, insert, lookup-insert, subst, length,
}
use krsm.Model.{Ref, key}
use krsm.Model.Clause.{ScopeClause}
use krsm.State.{State}
use krsm.State.Laws.{IsOver}
use krsm.Walk.Reach.{Reach}
use krsm.Safe.{Memo, Resolved, pure, ◌>>=◌, owned_subtree}
use krsm.Safe.Roots.{RootsAgree}
use krsm.Safe.Subtree.{IsSubtree, walk_subtree_total}

module _ (s : State) (all_clauses : List ScopeClause) where
  -- Every memorised subtree is that of a clause of the scope.
  abbrev pub IsMemo : Memo → Type 0
  IsMemo memo =
      (k : String) (members : List String)
      → lookup k memo ≡ some members
      → (c : ScopeClause) × (c ∈ all_clauses) × (key c.root ≡ k) × IsSubtree s c.root members

  -- The computation returns, its result is as said, and the memo stays right.
  pub record Answers {A : Type 0} (P : A → Type 0) (r : Option (A × Memo)) : Type 0 where
    pub value : A
    pub memo : Memo
    pub returns : r ≡ some (value, memo)
    pub right : P value
    pub kept : IsMemo memo

  -- A result that does not touch the memo.
  pub pure-Answers :
      {A : Type 0} (P : A → Type 0) (a : A) (memo : Memo)
      → P a
      → IsMemo memo
      → Answers P (pure a memo)
  pure-Answers P a memo h good = record {
    value = a;
    memo = memo;
    returns = refl;
    right = h;
    kept = good;
  }

  pub >>=-Answers :
      {A B : Type 0} (P : A → Type 0) (Q : B → Type 0) (m : Resolved A) (f : A → Resolved B)
      → (memo : Memo) → Answers P (m memo)
      → ((a : A) (memo' : Memo) → P a → IsMemo memo' → Answers Q (f a memo'))
      → Answers Q ((m >>= f) memo)
  >>=-Answers P Q m f memo a next =
      let b = next a.value a.memo a.right a.kept in
      record {
        value = b.value;
        memo = b.memo;
        returns = rw (a.returns, ◌>>=◌) b.returns;
        right = b.right;
        kept = b.kept;
      }

module _ (s : State) (us : List Ref) (over : IsOver s us) (all_clauses : List ScopeClause)
    (agree : RootsAgree s us all_clauses) where
  abbrev fuel : ℕ
  fuel = suc (length us)

  -- The subtree of another root with the same key is the same.
  IsSubtree-transfer :
      (b c : ScopeClause) (members : List String)
      → b ∈ all_clauses
      → c ∈ all_clauses
      → key b.root ≡ key c.root
      → IsSubtree s b.root members
      → IsSubtree s c.root members
  IsSubtree-transfer b c members hb hc e t =
      let start = agree.one_start b c hb hc e in
      record {
        rooted = subst (λ k. k ∈ members) e t.rooted;
        sound = λ k m. elim (t.sound k m) [
          | inl e' ↦ inl (e' ∙ e)
          | inr (q, w, e') ↦ inr (q, subst (λ x. Reach s.owned_children (x ∷ []) q) start w, e')
        ];
        complete =
            λ q w. t.complete q (subst (λ x. Reach s.owned_children (x ∷ []) q) (sym start) w);
      }

  pub owned_subtree-Answers :
      (c : ScopeClause) (memo : Memo)
      → c ∈ all_clauses
      → IsMemo s all_clauses memo
      → Answers s all_clauses (IsSubtree s c.root) (owned_subtree fuel s c.root memo)
  unfolding owned_subtree
  owned_subtree-Answers c memo hc good = elim (Option-cases (lookup (key c.root) memo)) [
    | inr (members, e) ↦
        let (b, hb, same, t) = good (key c.root) members e in
        record {
          value = members;
          memo = memo;
          returns = rw (e, owned_subtree);
          right = IsSubtree-transfer b c members hb hc same t;
          kept = good;
        }
    | inl e ↦
        let (members, w, t) = walk_subtree_total s us over c.root (agree.identified c hc) in
        record {
          value = members;
          memo = insert (key c.root) members memo;
          returns = rw (e, w, owned_subtree);
          right = t;
          kept =
              λ k ms h. keeps members t k ms (sym (lookup-insert (key c.root) k members memo) ∙ h);
        }
  ]
    where
      keeps :
          (members : List String)
          → IsSubtree s c.root members
          → (k : String) (ms : List String)
          → (if key c.root == k then some members else lookup k memo) ≡ some ms
          → (b : ScopeClause) × (b ∈ all_clauses) × (key b.root ≡ k) × IsSubtree s b.root ms
      keeps members t k ms h = elim (Bool-cases (key c.root == k)) [
        | inl e ↦
            let same : some members ≡ some ms = rw e at h in
            let same' : members ≡ ms = cc in
            (c, hc, (eq_iff (key c.root) k).0 e, subst (IsSubtree s c.root) same' t)
        | inr e ↦ good k ms (rw e at h)
      ]
