-- ===== src/Cli/Directory.antt =====
-- cmd/krsm/main.go with internal/scenario/scenario.go: a check of a scenario directory.
use krsm.Prelude.{
  ℕ, suc, String, some, List, [], ◌∷◌, length, ◌≡◌, refl, sym, ap, ◌∙◌, inl, inr, ◌↔◌, ◌∈◌, arith,
  Option-cases, Result, ok, relabel, Result-cases,
}
use krsm.Model.{Object, Action, block, Decision}
use krsm.State.{State, new_scan_state, scan_state}
use krsm.State.Laws.{refs_of, new_scan_state-IsOver, lookup_ref-tracked, new_scan_state-PointsInto}
use krsm.Closure.Relation.{Identified}
use krsm.Safe.{unresolved}
use krsm.Safe.Judgement.{safe_fails_closed}
use krsm.Scope.{Mode, derive}
use krsm.Scenario.{Scenario, FileRead, content, absent, Yaml}
use krsm.Scenario.Manifests.{parse_cluster}
use krsm.Scenario.Clauses.{parse_action}
use krsm.Scenario.Load.{load}
use krsm.Scenario.Sources.{by_default}
use krsm.Scenario.Loaded.{LoadedFrom, load_iff}
use krsm.Cli.{
  CliError, load_failed, LiveReader, Flags, Checked, failed, reported, exit_code, report_of,
  parse_mode, run_check,
}
use krsm.Cli.Status.{
  Denied, derived_status_exact, reported_with, exit_code-zero, apply-unresolved, checked_of_some,
}

-- `scenario.Load`, as the command sees it: `files dir name` is the read of a file in a directory.
unfoldable pub load_from : Yaml → (String → String → FileRead) → String → Result CliError Scenario
unfolding load
load_from yaml files dir = relabel load_failed (load yaml (files dir))

-- The flags ask for a scenario directory, in a mode that there is.
pub record Asks (f : Flags) (dir : String) (mode : Mode) : Type 0 where
  pub known_mode : parse_mode f.mode ≡ ok mode
  pub no_context : f.context ≡ ""
  pub no_kubeconfig : f.kubeconfig ≡ ""
  pub directory : f.args ≡ dir ∷ []

module _ (yaml : Yaml) (files : String → String → FileRead)
    (nlr : String → String → Result CliError LiveReader) where
  -- What a check of a directory that loads is.
  directory_run :
      (fuel : ℕ) (f : Flags) (dir : String) (mode : Mode) (sc : Scenario)
      → Asks f dir mode
      → load yaml (files dir) ≡ ok sc
      → run_check fuel f (load_from yaml files) nlr
        ≡ report_of fuel sc.state sc.action sc.scope sc.scope_source mode f.plain
  unfolding run_check load_from
  directory_run fuel f dir mode sc a l =
      rw (run_check, a.known_mode, a.no_context, a.no_kubeconfig, a.directory, load_from, l)

  -- A check whose flags give a known mode, no context and no kubeconfig and whose one argument is
  -- a directory, where cluster.yaml and request.yaml parse and neither taskcontract.yaml nor
  -- scope.yaml is there, and where a key stands for one reference among the target and the
  -- objects, ends with a report if the fuel is one more than the objects are many. Its status is 2
  -- if the target is no object of the cluster or, in a mode other than audit, if the action
  -- affects something outside the tree of its target, and 0 otherwise.
  pub directory_status_exact :
      (f : Flags) (dir : String) (mode : Mode) (cluster request : String) (objs : List Object)
      (a : Action)
      → Asks f dir mode
      → files dir "cluster.yaml" ≡ content cluster
      → parse_cluster yaml cluster ≡ ok objs
      → files dir "request.yaml" ≡ content request
      → parse_action yaml request ≡ ok a
      → files dir "taskcontract.yaml" ≡ absent
      → files dir "scope.yaml" ≡ absent
      → Identified (a.target ∷ refs_of objs)
      → (c : Checked) × (run_check (suc (length (refs_of objs))) f (load_from yaml files) nlr
          ≡ some c)
        × ((exit_code c ≡ 2) ↔ Denied (scan_state (new_scan_state objs)) a mode)
        × ((exit_code c ≡ 0) ↔ (¬ Denied (scan_state (new_scan_state objs)) a mode))
  directory_status_exact f dir mode cluster request objs a asks c p r q t s inj =
      let sc : Scenario = record {
        state = scan_state (new_scan_state objs);
        action = a;
        scope = (derive a.target).clauses;
        scope_source = "derived (ownership-tree)";
      } in
      let l = (load_iff yaml (files dir) sc).1 (record {
        cluster_raw = cluster;
        cluster = c;
        objects = objs;
        parsed = p;
        tracked = refl;
        request_raw = request;
        request = r;
        action = q;
        scope = by_default t s;
      }) in
      let (out, run, two, zero) =
        derived_status_exact sc.state (refs_of objs) a sc.scope_source mode f.plain
          (new_scan_state-IsOver objs) inj in
      (out, directory_run (suc (length (refs_of objs))) f dir mode sc asks l ∙ run, two, zero)

  -- A check whose flags give a known mode, no context and no kubeconfig and whose one argument is
  -- a directory, and that ends with status 0, whatever the fuel and the source of the scope, has
  -- loaded the directory, and its target is resolved to an object of cluster.yaml.
  pub directory_zero_sound :
      (fuel : ℕ) (f : Flags) (dir : String) (mode : Mode) (c : Checked)
      → Asks f dir mode
      → run_check fuel f (load_from yaml files) nlr ≡ some c
      → exit_code c ≡ 0
      → (sc : Scenario) × (w : LoadedFrom yaml (files dir) sc) × (t : Object) × (t ∈ w.objects)
        × (sc.state.get sc.action.target ≡ some t)
  unfolding run_check load_from exit_code
  directory_zero_sound fuel f dir mode c asks h z = elim (Result-cases (load yaml (files dir))) [
    | inr (x, e) ↦
        let same = checked_of_some (failed load_failed) c (
          rw
            (
              run_check, asks.known_mode, asks.no_context, asks.no_kubeconfig, asks.directory,
              load_from, e,
            )
            at h) in
        let one : exit_code (failed load_failed) ≡ 0 = ap exit_code same ∙ z in absurd (omega arith)
    | inl (sc, e) ↦
        let w = (load_iff yaml (files dir) sc).0 e in
        elim (Option-cases (sc.state.get sc.action.target)) [
          | inr (t, n) ↦ (
            sc,
            w,
            t,
            lookup_ref-tracked w.objects (new_scan_state w.objects) sc.action.target t
                (new_scan_state-PointsInto w.objects)
                (ap (λ (s : State). s.get sc.action.target) (sym w.tracked) ∙ n),
            n,
          )
          | inl n ↦
              let (r, run, q) =
                reported_with fuel sc.state sc.action sc.scope sc.scope_source mode f.plain
                  unresolved (safe_fails_closed fuel sc.state sc.action sc.scope n) in
              let b : r.decision.verdict ≡ block =
                ap (λ (x : Decision). x.verdict) q ∙ apply-unresolved mode in
              let same =
                checked_of_some (reported r) c
                  (sym run ∙ sym (directory_run fuel f dir mode sc asks e) ∙ h) in
              absurd ((exit_code-zero r).0 (ap exit_code same ∙ z) b)
        ]
  ]
