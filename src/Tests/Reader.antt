-- ===== src/Tests/Reader.antt =====
-- A cluster with one ConfigMap, whose discovery also tells of a subresource and of a resource that can
-- only be created.
use krsm.Prelude.{
  object, ne, String, true, false, Option, none, some, List, [], ◌∷◌, ◌≡◌, refl, sym, ◌≢◌, ◌⊎◌, inl,
  inr, ◌↔◌, ◌==◌, ◌∈◌, Distinct, Bool-cases, if◌then◌else◌, cut, Result, ok, err, lookup, insert,
  subst, Fields,
}
use krsm.Model.{Object, Action, key, allow}
use krsm.Model.Clause.{ownership_clause}
use krsm.State.{State, new_scan_state, scan_state, owned_children}
use krsm.Closure.{closure, external_effects}
use krsm.Classify.{classify}
use krsm.Scope.{mode_enforce}
use krsm.Cluster.Projection.{StandsFor}
use krsm.Cluster.Reader.{
  ApiResource, ApiResourceList, GroupVersion, Gvr, Client, unknown_kind, select_targets,
  resolve_kind, read_state, scope_from_lists,
}
use krsm.Cluster.Targets.{Selected, select_targets_exact}
use krsm.Cluster.Live.{ReadFrom, read_state-ReadFrom}
use krsm.Cluster.Strings.{TextAt, text_there, no_text}
use krsm.Cluster.Selectors.{selector_path}
use krsm.Cluster.Buildable.{Buildable}
use krsm.Cluster.Total.{Readable, read_state_live}
use krsm.Cluster.Resolve.{First, all_resources, Unknown, resolve_kind_exact}
use krsm.Cli.{
  CliError, LiveReader, LiveOpts, Checked, reported, exit_code, action_on, live_request,
  run_check_live,
}
use krsm.Cli.Listed.{live_zero_listed}
use krsm.Cli.Connect.{ClientConfig, config_of, reader_of, new_live_reader}
use krsm.Tests.Snapshots.{api, config_map, built_config, value_at}

abbrev config_maps : ApiResource
config_maps = record {
  name = "configmaps";
  singular_name = "configmap";
  namespaced = true;
  kind = "ConfigMap";
  verbs = "get" ∷ "list" ∷ [];
}

abbrev pod_status : ApiResource
pod_status = record {
  name = "pods/status";
  singular_name = "";
  namespaced = true;
  kind = "Pod";
  verbs = "get" ∷ [];
}

abbrev reviews : ApiResource
reviews = record {
  name = "tokenreviews";
  singular_name = "";
  namespaced = false;
  kind = "TokenReview";
  verbs = "create" ∷ [];
}

abbrev lists : List ApiResourceList
lists =
    record { group_version = "v1"; resources = pod_status ∷ config_maps ∷ [] }
    ∷ record { group_version = "authentication.k8s.io/v1"; resources = reviews ∷ [] }
    ∷ []

abbrev parse : String → Option GroupVersion
parse s = some (elim (cut s) [
  | none ↦ record { group = ""; version = s }
  | some (group, version) ↦ record { group = group; version = version }
])

abbrev items : Gvr → List Fields
items g = if g.resource == "configmaps" then config_map ∷ [] else []

abbrev client : Client
client = record {
  server_resources = some lists;
  parse_group_version = parse;
  list = λ g. some (items g);
}

abbrev config_maps_target : Gvr
config_maps_target = record { group = ""; version = "v1"; resource = "configmaps" }

targets_run : select_targets client lists ≡ ok (config_maps_target ∷ [])
unfolding select_targets cut
targets_run = refl

select_targets_exact_example :
    Distinct (config_maps_target ∷ [])
    × ((g : Gvr) → (g ∈ config_maps_target ∷ []) ↔ Selected client lists g)
select_targets_exact_example =
    select_targets_exact client lists (config_maps_target ∷ []) targets_run

resolve_kind_exact_example :
    ((kind : String) × (resolve_kind client "ConfigMaps" ≡ ok kind)
      × First "ConfigMaps" (all_resources lists) kind)
    ⊎ ((resolve_kind client "ConfigMaps" ≡ err unknown_kind) × Unknown "ConfigMaps" lists)
resolve_kind_exact_example = resolve_kind_exact client lists "ConfigMaps" refl

filled :
    (path : List String) (t : String)
    → api.string_field config_map path ≡ some t
    → (t == "") ≡ false
    → ¬ TextAt api config_map path ""
filled path t e f (text_there {s} h) = let same : t ≡ "" = cc in ne t "" f same
filled path t e f (no_text h) = cc

config_map-Buildable : Buildable api config_map
unfolding value_at
config_map-Buildable = record {
  kind = filled ("kind" ∷ []) "ConfigMap" refl refl;
  name = filled ("metadata" ∷ "name" ∷ []) "cfg" refl refl;
  operates = λ kind w wrap vs entry op n e f k t. absurd (no_selector_in kind wrap e);
}
  where
    no_selector_in :
        (kind : String) (wrap : Fields)
        → api.field_no_copy config_map (selector_path kind) ≡ some (object wrap)
        → ⊥
    no_selector_in kind wrap e = elim (Bool-cases (kind == "NetworkPolicy")) [
      | inl n ↦ cc (rw n at e)
      | inr n ↦ cc (rw n at e)
    ]

parse_total : (s : String) → parse s ≢ none
parse_total s e = absurd (cc)

items-Buildable :
    (g : Gvr) (is : List Fields) (o : Fields) → some (items g) ≡ some is → o ∈ is → Buildable api o
items-Buildable g is o e m =
    let same : is ≡ items g = cc in
    let k : o ∈ items g = subst (λ l. o ∈ l) same m in
    elim (Bool-cases (g.resource == "configmaps")) [
      | inl t ↦ elim (in_one (rw t at k)) [
        | inl p ↦ subst (Buildable api) (sym p) config_map-Buildable
        | inr n ↦ absurd n
      ]
      | inr t ↦ absurd (none_in (rw t at k))
    ]
  where
    in_one : o ∈ config_map ∷ [] → (o ≡ config_map) ⊎ ⊥
    in_one k = k

    none_in : o ∈ [] → ⊥
    none_in k = k

sample-Readable : Readable client api lists
sample-Readable = record {
  answers = refl;
  parses = λ l m. parse_total l.group_version;
  lists = λ g w e. absurd (cc);
  builds = λ g is o w e m. items-Buildable g is o e m;
}

read_state_live_example : (s : State) × (read_state client api ≡ ok s) × ReadFrom client api s
read_state_live_example = read_state_live client api lists sample-Readable

abbrev read : State
read = scan_state (new_scan_state (built_config ∷ []))

read_run : read_state client api ≡ ok read
unfolding read_state select_targets cut value_at
read_run = refl

read_state-ReadFrom_example : ReadFrom client api read
read_state-ReadFrom_example = read_state-ReadFrom client api read read_run

abbrev resolve : ClientConfig → Option String
resolve config = some config.current_context

abbrev dial : String → Option Client
dial context = if context == "prod" then some client else none

abbrev connect : String → String → Result CliError LiveReader
connect = new_live_reader resolve dial api

abbrev options : LiveOpts
options = record {
  context_name = "prod";
  kubeconfig = "";
  namespace = "shop";
  mode = mode_enforce;
  plain = true;
}

abbrev live_command : List String
live_command = "delete" ∷ "configmaps/cfg" ∷ []

abbrev delete_action : Action
delete_action = action_on "delete" "ConfigMap" "cfg" "shop"

abbrev approved : Checked
approved = reported (record {
  action = delete_action;
  clauses = ownership_clause delete_action.target ∷ [];
  scope_source = "derived (ownership-tree)";
  decision = record {
    verdict = allow;
    reason = "";
    closure = delete_action.target ∷ [];
    escaping = [];
    external = [];
  };
  plain = true;
})

approved_run : run_check_live 3 live_command options connect ≡ some approved
unfolding krsm.State.consumers run_check_live new_live_reader reader_of resolve_kind read_state
    select_targets cut value_at closure classify external_effects new_scan_state lookup insert key
    owned_children
approved_run = refl

live_zero_listed_example :
    (cfg : String) × (c : Client) × (a : Action) × (s : State) × (r : ReadFrom c api s)
    × (t : Object) × (item : Fields) × (resolve (config_of "" "prod") ≡ some cfg)
    × (dial cfg ≡ some c)
    × (live_request live_command options connect ≡ ok (a, s))
    × (s.get a.target ≡ some t)
    × (item ∈ r.listed)
    × StandsFor api (scope_from_lists c r.resource_lists) item t
unfolding exit_code
live_zero_listed_example =
    live_zero_listed resolve dial api 3 live_command options approved approved_run refl
