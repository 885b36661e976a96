-- ===== src/Safe/Widening.antt =====
-- closure/safe.go: `Safe` under two scopes, of which one has the clauses of the other.
use krsm.Prelude.{suc, some, List, ◌≡◌, ◌≢◌, ◌∈◌, length, ◌∙◌, sym, ap}
use krsm.Model.{Ref, Object, Action, Decision, block}
use krsm.Model.Clause.{ScopeClause}
use krsm.State.{State}
use krsm.Safe.{safe}
use krsm.Safe.Judgement.{Reliable, Judges, safe-Judges}

-- Over a state that answers with listed references only, on a tracked target and where keys are
-- reliable for both scopes: if every clause of the first scope is in the second, and `Safe`
-- returns a decision other than Block under the first, then it returns a decision other than Block
-- under the second.
pub safe_monotone :
    (s : State) (us : List Ref) (a : Action) (small large : List ScopeClause) (o : Object)
    → Reliable s us a small
    → Reliable s us a large
    → s.get a.target ≡ some o
    → ((c : ScopeClause) → c ∈ small → c ∈ large)
    → (d : Decision) → safe (suc (length us)) s a small ≡ some d
    → d.verdict ≢ block
    → (e : Decision) × (safe (suc (length us)) s a large ≡ some e) × (e.verdict ≢ block)
safe_monotone s us a small large o r r' h sub d p n =
    let (d', p', j) = safe-Judges s us a small r o h in
    let (e, q, k) = safe-Judges s us a large r' o h in
    let same : d' ≡ d = cc (p, p') in
    (
      e,
      q,
      λ b. n (
          ap (λ (x : Decision). x.verdict) (sym same)
          ∙ j.ranked.blocks.1 (escaping d' e j k (k.ranked.blocks.0 b))),
    )
  where
    escaping :
        (d e : Decision)
        → Judges s a small d
        → Judges s a large e
        → (x : Ref) × (x ∈ e.escaping)
        → (x : Ref) × (x ∈ d.escaping)
    escaping d e j k (x, m) =
        let (w, n) = (k.escaped x).0 m in (x, (j.escaped x).1 (w, λ (c, m', v). n (c, sub c m', v)))
