-- ===== src/Cli/Run.antt =====
-- cmd/krsm/main.go: the flags of `check` and the status that a run exits with.
use krsm.Prelude.{
  ℕ, String, Bool, true, false, some, List, [], ◌∷◌, ◌≡◌, refl, sym, ap, ◌∙◌, ◌≢◌, ◌⊎◌, inl, inr,
  ◌↔◌, arith, Option-cases, if◌then◌else◌, Result, ok, err, Result-cases, ok_injective, subst,
}
use krsm.Model.{Verdict, block}
use krsm.Scenario.{Scenario}
use krsm.Cli.{CliError, LiveReader, Flags, Report, Checked, failed, reported, exit_code, run_check}
use krsm.Cli.Status.{exit_code-two, exit_code-zero, checked_of_some}
use krsm.Cli.Flagset.{
  FlagError, asks_help, bad_flags, parse_flags, Outcome, prints_check_usage, flags_refused,
  ran_check, status, check_command, run,
}

-- The words that set every flag and end the flags.
abbrev pub words_of : Flags → List String
words_of f =
    (if f.plain then "--plain" else "--plain=false")
    ∷ "--mode"
    ∷ f.mode
    ∷ "--context"
    ∷ f.context
    ∷ "-kubeconfig"
    ∷ f.kubeconfig
    ∷ "-n"
    ∷ f.namespace
    ∷ "--"
    ∷ f.args

words_back :
    (p : Bool) (m c k n : String) (args : List String)
    → parse_flags (
        words_of
          (record { plain = p; mode = m; context = c; kubeconfig = k; namespace = n; args = args }))
      ≡ ok (record { plain = p; mode = m; context = c; kubeconfig = k; namespace = n; args = args })
unfolding parse_flags
words_back true m c k n [] = refl
words_back true m c k n (a ∷ args) = refl
words_back false m c k n [] = refl
words_back false m c k n (a ∷ args) = refl

-- The words that set every flag and end the flags parse to those flags, whatever the values and
-- the arguments behind them, values that look like flags included.
pub parse_flags-words_of : (f : Flags) → parse_flags (words_of f) ≡ ok f
parse_flags-words_of f = words_back f.plain f.mode f.context f.kubeconfig f.namespace f.args

outcome_of_some : (x y : Outcome) → some x ≡ some y → x ≡ y
outcome_of_some x y h = cc

module _ (fuel : ℕ) (load : String → Result CliError Scenario)
    (nlr : String → String → Result CliError LiveReader) where
  -- The flags parse, and the check ends with a report whose verdict is such.
  abbrev pub Reports : List String → (Verdict → Type 0) → Type 0
  Reports args p =
      (f : Flags) × (r : Report) × (parse_flags args ≡ ok f)
      × (run_check fuel f load nlr ≡ some (reported r))
      × p r.decision.verdict

  Exits : List String → Outcome → Type 0
  Exits args out =
      ((status out ≡ 2) ↔ Reports args (λ v. v ≡ block))
      × ((status out ≡ 0) ↔ ((parse_flags args ≡ err asks_help) ⊎ Reports args (λ v. v ≢ block)))

  -- The check of the flags is the one that is reported.
  same_check :
      (args : List String) (f g : Flags) (c d : Checked)
      → parse_flags args ≡ ok f
      → run_check fuel f load nlr ≡ some c
      → parse_flags args ≡ ok g
      → run_check fuel g load nlr ≡ some d
      → c ≡ d
  same_check args f g c d p h q k =
      let e = ok_injective f g (sym p ∙ q) in
      checked_of_some c d (sym h ∙ ap (λ x. run_check fuel x load nlr) e ∙ k)

  reports_of :
      (args : List String) (f : Flags) (c : Checked) (v : Verdict → Type 0)
      → parse_flags args ≡ ok f
      → run_check fuel f load nlr ≡ some c
      → Reports args v
      → (r : Report) × (c ≡ reported r) × v r.decision.verdict
  reports_of args f c v p h (g, r, q, k, w) = (r, same_check args f g c (reported r) p h q k, w)

  check-Exits :
      (args : List String) (f : Flags) (c : Checked)
      → parse_flags args ≡ ok f
      → run_check fuel f load nlr ≡ some c
      → Exits args (ran_check c)
  unfolding Exits status exit_code
  check-Exits args f (failed e) p h = (
    (
      λ z. absurd (omega arith),
      λ w. let (r, same, _) = reports_of args f (failed e) _ p h w in absurd (cc),
    ),
    (
      λ z. absurd (omega arith),
      λ w. elim w [
        | inl asked ↦ absurd (cc (p, asked))
        | inr w' ↦ let (r, same, _) = reports_of args f (failed e) _ p h w' in absurd (cc)
      ],
    ),
  )
  check-Exits args f (reported r) p h = (
    (
      λ z. (f, r, p, h, (exit_code-two r).0 z),
      λ w.
          let (r', same, v) = reports_of args f (reported r) _ p h w in
          ap exit_code same ∙ (exit_code-two r').1 v,
    ),
    (
      λ z. inr (f, r, p, h, (exit_code-zero r).0 z),
      λ w. elim w [
        | inl asked ↦ absurd (cc (p, asked))
        | inr w' ↦
            let (r', same, v) = reports_of args f (reported r) _ p h w' in
            ap exit_code same ∙ (exit_code-zero r').1 v
      ],
    ),
  )

  no_report :
      (args : List String) (e : FlagError) (v : Verdict → Type 0)
      → parse_flags args ≡ err e
      → ¬ Reports args v
  no_report args e v p (f, r, q, _, _) = absurd (cc (p, q))

  help-Exits :
      (args : List String) → parse_flags args ≡ err asks_help → Exits args prints_check_usage
  unfolding Exits status
  help-Exits args p = (
    (λ z. absurd (omega arith), λ w. absurd (no_report args asks_help _ p w)),
    (λ z. inl p, λ w. refl),
  )

  refused-Exits : (args : List String) → parse_flags args ≡ err bad_flags → Exits args flags_refused
  unfolding Exits status
  refused-Exits args p = (
    (λ z. absurd (omega arith), λ w. absurd (no_report args bad_flags _ p w)),
    (
      λ z. absurd (omega arith),
      λ w. elim w [
        | inl asked ↦ absurd (cc (p, asked))
        | inr w' ↦ absurd (no_report args bad_flags _ p w')
      ],
    ),
  )

  unparsed-Exits :
      (args : List String) (e : FlagError) (out : Outcome)
      → parse_flags args ≡ err e
      → check_command fuel load nlr args ≡ some out
      → Exits args out
  unfolding check_command
  unparsed-Exits args asks_help out p h =
      let same : some prints_check_usage ≡ some out = rw (check_command, p) at h in
      subst (Exits args) (outcome_of_some prints_check_usage out same) (help-Exits args p)
  unparsed-Exits args bad_flags out p h =
      let same : some flags_refused ≡ some out = rw (check_command, p) at h in
      subst (Exits args) (outcome_of_some flags_refused out same) (refused-Exits args p)

  -- A run of `check` that ends has status 2 exactly if its flags parse and the check reports a
  -- Block, and status 0 exactly if it asks for help or its flags parse and the check reports
  -- another verdict.
  pub run-status_exact :
      (args : List String) (out : Outcome)
      → run fuel load nlr ("check" ∷ args) ≡ some out
      → ((status out ≡ 2) ↔ Reports args (λ v. v ≡ block))
        × ((status out ≡ 0) ↔ ((parse_flags args ≡ err asks_help) ⊎ Reports args (λ v. v ≢ block)))
  unfolding run check_command Exits
  run-status_exact args out h = elim (Result-cases (parse_flags args)) [
    | inr (e, p) ↦ unparsed-Exits args e out p h
    | inl (f, p) ↦ elim (Option-cases (run_check fuel f load nlr)) [
      | inl n ↦ absurd (cc (rw (check_command, p, n) at h))
      | inr (c, k) ↦
          let same : some (ran_check c) ≡ some out = rw (check_command, p, k) at h in
          subst (Exits args) (outcome_of_some (ran_check c) out same) (check-Exits args f c p k)
    ]
  ]
