-- ===== src/Tests/Commands.antt =====
-- Command lines against the sample cluster.
use krsm.Cli.{
  CliError, reported, slash_in_namespace, LiveReader, LiveOpts, Checked, exit_code, arg_of,
  extract_namespace, split_target, parse_action, action_on, live_request, run_check_live,
}
use krsm.Prelude.{
  String, true, some, List, [], ◌∷◌, ◌≡◌, refl, inl, inr, ap, ◌↔◌, if◌then◌else◌, lookup, insert,
  has_slash, Result, ok, err,
}
use krsm.Model.{Action, key, human, allow}
use krsm.State.{new_scan_state, owned_children}
use krsm.Closure.{closure, external_effects}
use krsm.Model.Clause.{ownership_clause}
use krsm.Closure.Relation.{Identified}
use krsm.Closure.Keys.{are_distinct}
use krsm.Classify.{classify}
use krsm.Scope.{mode_enforce}
use krsm.Cli.Namespace.{AllPositional, Gives, short, extract_namespace_anywhere}
use krsm.Cli.Namespace.Words.{NoFlag-arg_of}
use krsm.Cli.Status.{Denied, live_status_exact}
use krsm.Tests.Cluster.{state, tracked, over, with_tracked}

abbrev service_kind : String
service_kind = "Service"

abbrev web_name : String
web_name = "web"

abbrev delete_action : Action
delete_action = action_on "delete" "Service" "web" "shop"

words-AllPositional : AllPositional ("delete" ∷ "Service/web" ∷ [])
unfolding arg_of
words-AllPositional w (inl e) = NoFlag-arg_of w (ap arg_of e)
words-AllPositional w (inr (inl e)) = NoFlag-arg_of w (ap arg_of e)
words-AllPositional w (inr (inr no_more)) = absurd no_more

no_words-AllPositional : AllPositional []
no_words-AllPositional w m = absurd m

shop-Gives : Gives "shop" ("-n" ∷ "shop" ∷ [])
shop-Gives = short

abbrev command : List String
command = "delete" ∷ "Service/web" ∷ "-n" ∷ "shop" ∷ []

extract_namespace_anywhere_example : extract_namespace command ≡ (
    if has_slash "shop" then err slash_in_namespace else ok ("delete" ∷ "Service/web" ∷ [], "shop"))
extract_namespace_anywhere_example =
    extract_namespace_anywhere ("delete" ∷ "Service/web" ∷ []) ("-n" ∷ "shop" ∷ []) [] "shop"
      words-AllPositional shop-Gives no_words-AllPositional

command_run : extract_namespace command ≡ ok ("delete" ∷ "Service/web" ∷ [], "shop")
unfolding extract_namespace
command_run = refl

-- A reader that knows every token as a kind, and the sample cluster.
abbrev reader : LiveReader
reader = record { resolve_kind = λ token. ok token; state = ok state }

abbrev connect : String → String → Result CliError LiveReader
connect kubeconfig context = ok reader

abbrev options : LiveOpts
options = record {
  context_name = "prod";
  kubeconfig = "";
  namespace = "";
  mode = mode_enforce;
  plain = true;
}

request : live_request command options connect ≡ ok (delete_action, state)
unfolding live_request extract_namespace split_target parse_action
request = refl

named-Identified : Identified (delete_action.target ∷ tracked)
unfolding are_distinct key human
named-Identified = with_tracked delete_action.target refl

live_status_exact_example :
    (c : Checked) × (run_check_live 6 command options connect ≡ some c)
    × ((exit_code c ≡ 2) ↔ Denied state delete_action mode_enforce)
    × ((exit_code c ≡ 0) ↔ (¬ Denied state delete_action mode_enforce))
live_status_exact_example =
    live_status_exact command options connect delete_action state tracked request over
      named-Identified

abbrev approved : Checked
approved = reported (record {
  action = delete_action;
  clauses = ownership_clause delete_action.target ∷ [];
  scope_source = "derived (ownership-tree)";
  decision = record {
    verdict = allow;
    reason = "";
    closure = delete_action.target ∷ [];
    escaping = [];
    external = [];
  };
  plain = true;
})

approved_run : run_check_live 6 command options connect ≡ some approved
unfolding run_check_live closure classify external_effects new_scan_state lookup insert key
    owned_children
approved_run = refl
