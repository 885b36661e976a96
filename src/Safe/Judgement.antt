-- ===== src/Safe/Judgement.antt =====
-- closure/safe.go: the decision of `Safe`, for tracked and untracked targets.
use krsm.Prelude.{ℕ, suc, none, some, List, [], ◌∷◌, ◌≡◌, refl, inl, ◌↔◌, ◌∈◌, arith, length}
use krsm.Model.{Ref, Object, Action, Decision, Verdict, allow, warn, block}
use krsm.Model.Clause.{ScopeClause}
use krsm.State.{State}
use krsm.State.Laws.{IsOver}
use krsm.Closure.{closure, external_effects, sort_refs, seeds, closure_loop, sorted_refs}
use krsm.Closure.Sorted.{∈-sort_refs}
use krsm.Closure.Relation.{Affects, touched, target, Identified}
use krsm.Closure.Exact.{closure_sound, closure_complete, closure_total}
use krsm.Safe.{unresolved, judge, decide_closure, safe}
use krsm.Safe.Covers.{Covered}
use krsm.Safe.Roots.{RootsAgree}
use krsm.Safe.Matching.{escapes_exact}

-- The list has an element.
abbrev pub Inhabited : List Ref → Type 0
Inhabited l = (r : Ref) × (r ∈ l)

-- Block where something escapes, else Warn where something crosses the boundary, else Allow.
pub record Ranked (escaping external : List Ref) (v : Verdict) : Type 0 where
  pub blocks : (v ≡ block) ↔ Inhabited escaping
  pub warns : (v ≡ warn) ↔ ((escaping ≡ []) × Inhabited external)
  pub allows : (v ≡ allow) ↔ ((escaping ≡ []) × (external ≡ []))

pub judge-Ranked :
    (escaping external : List Ref) → Ranked escaping external (judge escaping external).0
unfolding judge
judge-Ranked [] [] = record {
  blocks = (λ h. absurd (cc), λ h. absurd h.1);
  warns = (λ h. absurd (cc), λ (_, h). absurd h.1);
  allows = (λ h. (refl, refl), λ h. refl);
}
judge-Ranked [] (e ∷ es) = record {
  blocks = (λ h. absurd (cc), λ h. absurd h.1);
  warns = (λ h. (refl, (e, inl refl)), λ h. refl);
  allows = (λ h. absurd (cc), λ (_, h). absurd (cc));
}
judge-Ranked (r ∷ rs) es = record {
  blocks = (λ h. (r, inl refl), λ h. refl);
  warns = (λ h. absurd (cc), λ (h, _). absurd (cc));
  allows = (λ h. absurd (cc), λ (h, _). absurd (cc));
}

-- What the decision on a tracked target has to say.
pub record Judges (s : State) (a : Action) (scope : List ScopeClause) (d : Decision) : Type 0 where
  pub closed : (r : Ref) → (r ∈ d.closure) ↔ Affects s a r
  pub escaped : (r : Ref) → (r ∈ d.escaping) ↔ (Affects s a r × (¬ Covered s scope r))
  pub crossing : d.external ≡ external_effects s a
  pub ranked : Ranked d.escaping d.external d.verdict

-- What makes keys reliable: tracked resources and the target have keys of their own.
pub record Reliable (s : State) (us : List Ref) (a : Action) (scope : List ScopeClause)
    : Type 0 where
  pub over : IsOver s us
  pub identified : Identified (a.target ∷ us)
  pub agree : RootsAgree s us scope

module _ (s : State) (us : List Ref) (a : Action) (scope : List ScopeClause)
    (ok : Reliable s us a scope) where
  decided :
      (c : List Ref)
      → Inhabited c
      → ((r : Ref) → (r ∈ c) ↔ Affects s a r)
      → (d : Decision) × (decide_closure (suc (length us)) s a scope c ≡ some d)
        × Judges s a scope d
  unfolding decide_closure
  decided [] full exact = absurd full.1
  decided (x ∷ c) full exact =
      let (escaped, memo, e, h) = escapes_exact s us ok.over scope ok.agree (x ∷ c) in
      let escaping = sort_refs escaped in
      let external = external_effects s a in
      (
        record {
          verdict = (judge escaping external).0;
          reason = (judge escaping external).1;
          closure = x ∷ c;
          escaping = escaping;
          external = external;
        },
        rw (e, decide_closure),
        record {
          closed = exact;
          escaped = λ r. (
            λ m. let (k, n) = (h r).0 ((∈-sort_refs r escaped).0 m) in ((exact r).0 k, n),
            λ (w, n). (∈-sort_refs r escaped).1 ((h r).1 ((exact r).1 w, n)),
          );
          crossing = refl;
          ranked = judge-Ranked escaping external;
        },
      )

  -- Over a state that answers with listed references only, on a tracked target, where keys
  -- identify the references and roots of the scope with one key start in one place, `Safe` with
  -- one unit of fuel more than the list is long returns a decision. Its closure is what the action
  -- affects, its escaping members are the affected resources that no clause covers, its external
  -- effects are those of `ExternalEffects`, and its verdict is Block, Warn or Allow by what
  -- escapes and what crosses.
  pub safe-Judges :
      (o : Object)
      → s.get a.target ≡ some o
      → (d : Decision) × (safe (suc (length us)) s a scope ≡ some d) × Judges s a scope d
  unfolding safe
  safe-Judges o h =
      let (c, e) = closure_total s a us ok.over in
      let exact : (r : Ref) → (r ∈ c) ↔ Affects s a r = λ r. (
        closure_sound (suc (length us)) s a c r e,
        closure_complete s a us ok.over ok.identified (suc (length us)) c r e,
      ) in
      let (d, e', j) = decided c (a.target, (exact a.target).1 (touched (target o h))) exact in
      (d, rw (e, safe) e', j)

-- An untracked target seeds nothing.
closure_untracked :
    (fuel : ℕ) (s : State) (a : Action) → s.get a.target ≡ none → closure fuel s a ≡ some []
unfolding closure seeds closure_loop sorted_refs sort_refs
closure_untracked fuel s a h = ground arith

-- A target that the state does not track is denied with the fail-closed decision, whatever the
-- scope and the fuel.
pub safe_fails_closed :
    (fuel : ℕ) (s : State) (a : Action) (scope : List ScopeClause)
    → s.get a.target ≡ none
    → safe fuel s a scope ≡ some unresolved
unfolding safe decide_closure
safe_fails_closed fuel s a scope h = rw (safe, closure_untracked fuel s a h)
