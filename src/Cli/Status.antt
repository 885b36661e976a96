-- ===== src/Cli/Status.antt =====
-- cmd/krsm/main.go: the exit status of `runCheckLive`.
use krsm.Cli.{
  CliError, LiveReader, LiveOpts, Report, Checked, failed, reported, exit_code, report_of,
  live_request, run_check_live,
}
use krsm.Prelude.{
  ℕ, suc, String, Bool, some, none, List, ◌∷◌, ◌≡◌, refl, sym, ap, ◌∙◌, ◌≢◌, ◌⊎◌, inl, inr, ◌↔◌,
  ◌∈◌, subst, arith, length, Option-cases, Result, ok, err,
}
use krsm.Model.Clause.{ScopeClause}
use krsm.Model.{Ref, Object, Action, Decision, block}
use krsm.State.{State}
use krsm.State.Laws.{IsOver}
use krsm.Closure.Relation.{Identified}
use krsm.Safe.{safe, unresolved}
use krsm.Safe.Judgement.{safe_fails_closed, Judges}
use krsm.Scope.{Mode, mode_audit, apply, derive}
use krsm.Scope.Derived.{Escapes, derived-Judges, blocks-Escapes}
use krsm.Scope.Reporting.{IsEscape, apply-Reports, is_block_iff}

-- What a live check denies: a target that the state does not know, in every mode, and an escape from
-- the tree of the target, in every mode but audit.
abbrev pub Denied : State → Action → Mode → Type 0
Denied s a m = (s.get a.target ≡ none) ⊎ ((m ≢ mode_audit) × Escapes s a)

pub exit_code-two : (r : Report) → (exit_code (reported r) ≡ 2) ↔ (r.decision.verdict ≡ block)
unfolding exit_code
exit_code-two r = ground (arith, is_block_iff r.decision.verdict)

pub exit_code-zero : (r : Report) → (exit_code (reported r) ≡ 0) ↔ (r.decision.verdict ≢ block)
unfolding exit_code
exit_code-zero r = ground (arith, is_block_iff r.decision.verdict)

-- The mode leaves a denial of an unknown target as it is.
pub apply-unresolved : (m : Mode) → (apply m unresolved).verdict ≡ block
unfolding apply
apply-unresolved m = ground arith

-- The mode lets a block by `Safe` through, unless it is audit.
apply-blocks :
    (s : State) (a : Action) (m : Mode) (d : Decision)
    → Judges s a (derive a.target).clauses d
    → ((apply m d).verdict ≡ block) ↔ ((m ≢ mode_audit) × Escapes s a)
apply-blocks s a m d j = (forth, back)
  where
    escape_of_block : d.verdict ≡ block → IsEscape d
    escape_of_block b =
        (b, λ e. let (r, k) = j.ranked.blocks.0 b in absurd (subst (λ l. r ∈ l) e k))

    forth : (apply m d).verdict ≡ block → (m ≢ mode_audit) × Escapes s a
    forth b = elim (apply-Reports m d).outcome [
      | inl (p, q, w) ↦ absurd (cc (b, w))
      | inr (n, same) ↦
          let v : d.verdict ≡ block = ap (λ (x : Decision). x.verdict) (sym same) ∙ b in
          (λ e. n (e, escape_of_block v), (blocks-Escapes s a d j).0 v)
    ]

    back : (m ≢ mode_audit) × Escapes s a → (apply m d).verdict ≡ block
    back (n, w) = elim (apply-Reports m d).outcome [
      | inl (p, q, _) ↦ absurd (n p)
      | inr (_, same) ↦ ap (λ (x : Decision). x.verdict) same ∙ (blocks-Escapes s a d j).1 w
    ]

-- What the report is once `Safe` has decided.
module _ (fuel : ℕ) (s : State) (a : Action) (clauses : List ScopeClause) (source : String)
    (mode : Mode) (plain : Bool) where
  pub reported_with :
      (d : Decision)
      → safe fuel s a clauses ≡ some d
      → (r : Report) × (report_of fuel s a clauses source mode plain ≡ some (reported r))
        × (r.decision ≡ apply mode d)
  unfolding report_of
  reported_with d f = (
    record {
      action = a;
      clauses = clauses;
      scope_source = source;
      decision = apply mode d;
      plain = plain;
    },
    rw (report_of, f),
    refl,
  )

-- A check against the derived scope: its status is exactly what the relations say.
pub derived_status_exact :
    (s : State) (us : List Ref) (a : Action) (source : String) (mode : Mode) (plain : Bool)
    → IsOver s us
    → Identified (a.target ∷ us)
    → (c : Checked) × (report_of (suc (length us)) s a (derive a.target).clauses source mode plain
        ≡ some c)
      × ((exit_code c ≡ 2) ↔ Denied s a mode)
      × ((exit_code c ≡ 0) ↔ (¬ Denied s a mode))
derived_status_exact s us a source mode plain over inj = elim (Option-cases (s.get a.target)) [
  | inl n ↦
      let (r, p, q) =
        reported_with (suc (length us)) s a (derive a.target).clauses source mode plain unresolved
          (safe_fails_closed (suc (length us)) s a (derive a.target).clauses n) in
      let b : r.decision.verdict ≡ block =
        ap (λ (x : Decision). x.verdict) q ∙ apply-unresolved mode in
      (
        reported r,
        p,
        (λ _. inl n, λ _. (exit_code-two r).1 b),
        (λ z. absurd ((exit_code-zero r).0 z b), λ d. absurd (d (inl n))),
      )
  | inr (t, n) ↦
      let (d, f, j) = derived-Judges s us a t over inj n in
      let (r, p, q) =
        reported_with (suc (length us)) s a (derive a.target).clauses source mode plain d f in
      let same : r.decision.verdict ≡ (apply mode d).verdict = ap (λ (x : Decision). x.verdict) q in
      let (there, back) = apply-blocks s a mode d j in
      let known : ¬ (s.get a.target ≡ none) = λ m. absurd (cc (m, n)) in
      (
        reported r,
        p,
        (
          λ z. inr (there (sym same ∙ (exit_code-two r).0 z)),
          λ w. (exit_code-two r).1 (same ∙ back (only known w)),
        ),
        (
          λ z w. (exit_code-zero r).0 z (same ∙ back (only known w)),
          λ w. (exit_code-zero r).1 (λ b. w (inr (there (sym same ∙ b)))),
        ),
      )
]
  where
    only : ¬ (s.get a.target ≡ none) → Denied s a mode → (mode ≢ mode_audit) × Escapes s a
    only k (inl n) = absurd (k n)
    only k (inr w) = w

-- A live check whose request is worked out, over a state that answers with listed references only
-- and where a key stands for one reference among the target and the list, ends with a report if
-- the fuel is one more than the list is long. Its status is 2 if the target is not tracked or, in
-- a mode other than audit, if the action affects something outside the tree of its target, and 0
-- otherwise.
pub live_status_exact :
    (args : List String) (o : LiveOpts) (nlr : String → String → Result CliError LiveReader)
    → (a : Action) (s : State) (us : List Ref) → live_request args o nlr ≡ ok (a, s)
    → IsOver s us
    → Identified (a.target ∷ us)
    → (c : Checked) × (run_check_live (suc (length us)) args o nlr ≡ some c)
      × ((exit_code c ≡ 2) ↔ Denied s a o.mode)
      × ((exit_code c ≡ 0) ↔ (¬ Denied s a o.mode))
unfolding run_check_live
live_status_exact args o nlr a s us e over inj =
    let (c, p, q, r) =
      derived_status_exact s us a "derived (ownership-tree)" o.mode o.plain over inj in
    (c, rw (run_check_live, e) p, q, r)

pub checked_of_some : (x y : Checked) → some x ≡ some y → x ≡ y
checked_of_some x y h = cc

-- A live check that ends with status 0, whatever the fuel and the reader, has worked out its
-- request and found its target in the state that was read.
pub live_zero_sound :
    (fuel : ℕ) (args : List String) (o : LiveOpts)
    (nlr : String → String → Result CliError LiveReader)
    → (c : Checked) → run_check_live fuel args o nlr ≡ some c
    → exit_code c ≡ 0
    → (a : Action) × (s : State) × (t : Object) × (live_request args o nlr ≡ ok (a, s))
      × (s.get a.target ≡ some t)
unfolding run_check_live exit_code
live_zero_sound fuel args o nlr c h z = go (live_request args o nlr) refl
  where
    go :
        (q : Result CliError (Action × State))
        → live_request args o nlr ≡ q
        → (a : Action) × (s : State) × (t : Object) × (live_request args o nlr ≡ ok (a, s))
          × (s.get a.target ≡ some t)
    go (err e) p =
        let same : failed e ≡ c = checked_of_some (failed e) c (rw (run_check_live, p) at h) in
        let one : exit_code (failed e) ≡ 0 = ap exit_code same ∙ z in absurd (omega arith)
    go (ok (a, s)) p = elim (Option-cases (s.get a.target)) [
      | inr (t, n) ↦ (a, s, t, p, n)
      | inl n ↦
          let (r, run, q) =
            reported_with fuel s a (derive a.target).clauses "derived (ownership-tree)" o.mode
              o.plain unresolved (safe_fails_closed fuel s a (derive a.target).clauses n) in
          let b : r.decision.verdict ≡ block =
            ap (λ (x : Decision). x.verdict) q ∙ apply-unresolved o.mode in
          let same = checked_of_some (reported r) c (sym run ∙ (rw (run_check_live, p) at h)) in
          absurd ((exit_code-zero r).0 (ap exit_code same ∙ z) b)
    ]
