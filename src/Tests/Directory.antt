-- ===== src/Tests/Directory.antt =====
-- Checks of the sample directory.
use krsm.Prelude.{
  ◌≢◌, ◌⊎◌, String, true, some, List, [], ◌∷◌, map, ◌≡◌, refl, inl, ◌↔◌, ◌∈◌, Result, ok, err,
  lookup, insert,
}
use krsm.Model.{Object, key, human, allow, block}
use krsm.Model.Clause.{ownership_clause}
use krsm.State.{scan_state, new_scan_state, owned_children, pods_selected_by}
use krsm.State.Laws.{refs_of}
use krsm.Closure.{closure, external_effects}
use krsm.Classify.{classify}
use krsm.Closure.Relation.{Identified}
use krsm.Closure.Keys.{are_distinct, are_distinct-Distinct, Distinct-Identified, Identified-cons}
use krsm.Scope.{mode_enforce}
use krsm.Scenario.{Scenario}
use krsm.Scenario.Manifests.{object_from}
use krsm.Scenario.Clauses.{action_from}
use krsm.Scenario.Loaded.{LoadedFrom}
use krsm.Cli.{
  CliError, no_reader, LiveReader, Flags, Checked, parse_mode, reported, exit_code, run_check,
}
use krsm.Cli.Status.{Denied}
use krsm.Cli.Flagset.{asks_help, parse_flags, ran_check, status, run}
use krsm.Cli.Run.{words_of, Reports, parse_flags-words_of, run-status_exact}
use krsm.Cli.Directory.{load_from, Asks, directory_status_exact, directory_zero_sound}
use krsm.Tests.Scenarios.{action, action_run, cluster_raw, files, objs, objs_run, web, web_1, yaml}

abbrev flags : Flags
flags = record {
  plain = true;
  mode = "enforce";
  context = "";
  kubeconfig = "";
  namespace = "";
  args = "shop" ∷ [];
}

flags_ask : Asks flags "shop" mode_enforce
unfolding parse_mode
flags_ask = record { known_mode = refl; no_context = refl; no_kubeconfig = refl; directory = refl }

abbrev no_cluster : String → String → Result CliError LiveReader
no_cluster kubeconfig context = err no_reader

objs-Identified : Identified (action.target ∷ refs_of objs)
unfolding are_distinct key human action_from object_from pods_selected_by
objs-Identified =
    Identified-cons action.target (refs_of objs) (inl refl)
      (Distinct-Identified (refs_of objs) (are_distinct-Distinct (map key (refs_of objs)) refl))

directory_status_exact_example :
    (c : Checked) × (run_check 3 flags (load_from yaml files) no_cluster ≡ some c)
    × ((exit_code c ≡ 2) ↔ Denied (scan_state (new_scan_state objs)) action mode_enforce)
    × ((exit_code c ≡ 0) ↔ (¬ Denied (scan_state (new_scan_state objs)) action mode_enforce))
directory_status_exact_example =
    directory_status_exact yaml files no_cluster flags "shop" mode_enforce cluster_raw "request"
      objs action flags_ask refl objs_run refl action_run refl refl objs-Identified

abbrev approved : Checked
approved = reported (record {
  action = action;
  clauses = ownership_clause action.target ∷ [];
  scope_source = "derived (ownership-tree)";
  decision = record {
    verdict = allow;
    reason = "";
    closure = web.ref ∷ web_1.ref ∷ [];
    escaping = [];
    external = [];
  };
  plain = true;
})

approved_run : run_check 3 flags (load_from yaml files) no_cluster ≡ some approved
unfolding run_check load_from closure classify external_effects new_scan_state lookup insert key
    owned_children parse_mode action_from object_from pods_selected_by
approved_run = refl

directory_zero_sound_example :
    (sc : Scenario) × (w : LoadedFrom yaml (files "shop") sc) × (t : Object) × (t ∈ w.objects)
    × (sc.state.get sc.action.target ≡ some t)
unfolding exit_code
directory_zero_sound_example =
    directory_zero_sound yaml files no_cluster 3 flags "shop" mode_enforce approved flags_ask
      approved_run refl

abbrev words : List String
words = "--plain" ∷ "--mode=enforce" ∷ "shop" ∷ []

sample_outcome :
    run 3 (load_from yaml files) no_cluster ("check" ∷ words) ≡ some (ran_check approved)
unfolding run parse_flags run_check load_from closure classify external_effects new_scan_state
    lookup insert key owned_children parse_mode action_from object_from pods_selected_by
sample_outcome = refl

run-status_exact_example :
    ((status (ran_check approved) ≡ 2)
      ↔ Reports 3 (load_from yaml files) no_cluster words (λ v. v ≡ block))
    × ((status (ran_check approved) ≡ 0) ↔ (
        (parse_flags words ≡ err asks_help)
        ⊎ Reports 3 (load_from yaml files) no_cluster words (λ v. v ≢ block)))
run-status_exact_example =
    run-status_exact 3 (load_from yaml files) no_cluster words (ran_check approved) sample_outcome

parse_flags-words_of_example : parse_flags (words_of flags) ≡ ok flags
parse_flags-words_of_example = parse_flags-words_of flags
