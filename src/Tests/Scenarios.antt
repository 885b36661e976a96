-- ===== src/Tests/Scenarios.antt =====
-- A scenario directory with a Deployment and its ReplicaSet, an action, and no declared scope; and a
-- scope of two clauses.
use krsm.Prelude.{
  String, true, none, some, List, [], ◌∷◌, length, ◌≡◌, refl, ap, false, inl, inr, ◌↔◌, ◌∈◌, ◌==◌,
  if◌then◌else◌, Json, null, string, object, no_fields, field, ok, has_slash,
}
use krsm.Model.{Object, Action, gvk_eq, ref_eq}
use krsm.Model.Clause.{has_selector, ScopeClause, ownership_clause, no_selector}
use krsm.State.{scan_state, new_scan_state, is_owned_by}
use krsm.Scenario.{
  Scenario, FileRead, content, absent, RawPodSpec, RawSpec, RawManifest, RawOwner, RawAction, Yaml,
}
use krsm.Scenario.Documents.{split_documents}
use krsm.Scenario.Manifests.{parse_cluster, object_from}
use krsm.Scenario.Clauses.{parse_action, action_from, parse_scope}
use krsm.Scenario.Load.{load}
use krsm.Scenario.Loaded.{LoadedFrom, load_iff}
use krsm.Scenario.Objects.{Objects}
use krsm.Scenario.Owners.{Plain, Refers, loaded_owner_iff}
use krsm.Scenario.Vetted.{Vetted, parse_scope-Vetted}

abbrev no_pods : RawPodSpec
no_pods = record {
  volumes = [];
  containers = [];
  init_containers = [];
  ephemeral_containers = [];
  image_pull_secrets = [];
}

abbrev no_spec : RawSpec
no_spec = record {
  selector = none;
  pod_selector = none;
  scale_target_ref = none;
  pod_spec = no_pods;
  template = none;
}

abbrev deployment : RawManifest
deployment = record {
  api_version = "apps/v1";
  kind = "Deployment";
  metadata = record {
    name = "web";
    namespace = "shop";
    labels = [];
    finalizers = [];
    owner_references = [];
  };
  spec = no_spec;
}

abbrev replica_set : RawManifest
replica_set = record {
  api_version = "apps/v1";
  kind = "ReplicaSet";
  metadata = record {
    name = "web-1";
    namespace = "shop";
    labels = [];
    finalizers = [];
    owner_references = record { kind = "Deployment"; name = "web" } ∷ [];
  };
  spec = no_spec;
}

abbrev deletion : RawAction
deletion = record {
  verb = "delete";
  cascade = none;
  target = record {
    group = "apps";
    version = "v1";
    kind = "Deployment";
    namespace = "shop";
    name = "web";
  };
  old = none;
  new = none;
}

-- A clause of the ownership dimension, and one of a selector whose labels are null.
abbrev root_clause : Json
root_clause = object (
    field "dim" (string "ownership") (
      field "root"
        (object (field "Kind" (string "Deployment") (field "name" (string "web") no_fields)))
        no_fields))

abbrev null_clause : Json
null_clause = object (field "dim" (string "selector") (field "matchLabels" null no_fields))

abbrev pub yaml : Yaml
yaml = record {
  manifest = λ doc. if doc == "\ndeployment\n" then some deployment else some replica_set;
  action = λ raw. some deletion;
  scope = λ raw. some (root_clause ∷ null_clause ∷ []);
  contract = λ raw. none;
}

abbrev pub cluster_raw : String
cluster_raw = "# the shop\n---\ndeployment\n--- \nreplica set"

abbrev pub objs : List Object
objs = object_from deployment no_selector ∷ object_from replica_set no_selector ∷ []

split_run : split_documents cluster_raw ≡ "# the shop\n" ∷ "\ndeployment\n" ∷ "\nreplica set" ∷ []
unfolding split_documents
split_run = refl

pub objs_run : parse_cluster yaml cluster_raw ≡ ok objs
unfolding parse_cluster
objs_run = refl

abbrev pub action : Action
action = action_from deletion

pub action_run : parse_action yaml "request" ≡ ok action
unfolding parse_action
action_run = refl

-- Only the cluster and the request are there.
abbrev pub files : String → String → FileRead
files dir name =
    if name == "cluster.yaml"
    then content cluster_raw
    else if name == "request.yaml"
    then content "request"
    else absent

abbrev shop_scenario : Scenario
shop_scenario = record {
  state = scan_state (new_scan_state objs);
  action = action;
  scope = ownership_clause action.target ∷ [];
  scope_source = "derived (ownership-tree)";
}

scenario_run : load yaml (files "shop") ≡ ok shop_scenario
unfolding load
scenario_run = refl

load_iff_example :
    (load yaml (files "shop") ≡ ok shop_scenario) ↔ LoadedFrom yaml (files "shop") shop_scenario
load_iff_example = load_iff yaml (files "shop") shop_scenario

abbrev scope_clauses : List ScopeClause
scope_clauses =
    ownership_clause (record {
      gvk = record { group = ""; version = ""; kind = "Deployment" };
      namespace = "default";
      name = "web";
      uid = "uid:Deployment/default/web";
    })
    ∷ record {
      dim = "selector";
      gvk = record { group = ""; version = ""; kind = "" };
      namespace = "default";
      name = "";
      selector = no_selector;
      root = record {
        gvk = record { group = ""; version = ""; kind = "" };
        namespace = "";
        name = "";
        uid = "";
      };
    }
    ∷ []

scope_run : parse_scope yaml "scope" ≡ ok scope_clauses
unfolding parse_scope has_selector gvk_eq ref_eq
scope_run = refl

parse_scope-Vetted_example :
    (raws : List Json) × (yaml.scope "scope" ≡ some raws)
    × (length scope_clauses ≡ length raws)
    × ((c : ScopeClause) → c ∈ scope_clauses → Vetted c)
parse_scope-Vetted_example = parse_scope-Vetted yaml "scope" scope_clauses scope_run

abbrev pub web : Object
web = object_from deployment no_selector

abbrev pub web_1 : Object
web_1 = object_from replica_set no_selector

deployment-Plain : Plain deployment
unfolding has_slash
deployment-Plain = (refl, refl)

replica_set-Plain : Plain replica_set
unfolding has_slash
replica_set-Plain = (refl, refl)

web_owners : (o : RawOwner) → o ∈ replica_set.metadata.owner_references → has_slash o.kind ≡ false
unfolding has_slash
web_owners o (inl e) = ap (λ (x : RawOwner). has_slash x.kind) e
web_owners o (inr no_more) = absurd no_more

owned_run : is_owned_by web web_1 ≡ true
unfolding is_owned_by object_from
owned_run = refl

loaded_owner_iff_example : (is_owned_by web web_1 ≡ true) ↔ Refers replica_set deployment
loaded_owner_iff_example =
    loaded_owner_iff deployment replica_set no_selector no_selector deployment-Plain
      replica_set-Plain web_owners
