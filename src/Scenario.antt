-- ===== src/Scenario.antt =====
-- internal/scenario/scenario.go: the loader of a scenario directory. The raw types of the loader stand
-- here; `Yaml` is the decoder of the package sigs.k8s.io/yaml into each of them, and `read` of a name
-- is `os.ReadFile` in the directory. A pointer to a struct that has one field of text is an optional
-- text. The texts of the errors are left out.
pub mod Parity
pub mod Encoded
pub mod Owners
pub mod Loaded
pub mod Resolved
pub mod Objects
pub mod Identity
pub mod Sources
pub mod Vetted
pub mod Decode
pub mod Selectors
pub mod References
pub mod Documents
pub mod Manifests
pub mod Clauses
pub mod Load
use krsm.Prelude.{
  ℕ, String, Bool, true, false, Option, none, some, List, [], ◌∷◌, ◌==◌, if◌then◌else◌, cut,
  has_key, Json,
}
use Prim.Native.String.{◌++◌}
use krsm.Selector.{Labels}
use krsm.Model.{Gvk, Action}
use krsm.Model.Clause.{ScopeClause, ClauseError}
use krsm.State.{State}
use krsm.Scope.{CompileError}

pub record Scenario : Type 0 where
  pub state : State
  pub action : Action
  pub scope : List ScopeClause
  pub scope_source : String

abbrev pub scope_source_contract : String
scope_source_contract = "taskcontract.yaml"

abbrev pub scope_source_scope_yaml : String
scope_source_scope_yaml = "scope.yaml"

abbrev pub scope_source_derived : String
scope_source_derived = "derived (ownership-tree)"

-- What `os.ReadFile` gives: `absent` is an error that is `os.ErrNotExist`, `failed` any other.
pub data FileRead : Type 0 where
  content : String → FileRead
  absent failed : FileRead

pub data LoadError : Type 0 where
  unreadable bad_manifest bad_action bad_scope bad_clause bad_contract bad_allow_clause : LoadError
  bad_service_selector bad_selector unknown_operator : LoadError
  ownership_without_root ownership_with_gvk ownership_with_namespace : LoadError
  ownership_with_name ownership_with_selector stray_root : LoadError
  invalid_scope_clause : ClauseError → LoadError
  contract_rejected : CompileError → LoadError

-- The raw types of cluster.yaml.
pub record RawOwner : Type 0 where
  pub kind : String
  pub name : String

pub record RawMetadata : Type 0 where
  pub name : String
  pub namespace : String
  pub labels : Labels
  pub finalizers : List String
  pub owner_references : List RawOwner

pub record RawSource : Type 0 where
  pub config_map : Option String
  pub secret : Option String

pub record RawVolume : Type 0 where
  pub config_map : Option String
  pub secret : Option String
  pub pvc : Option String
  pub projected : Option (List RawSource)

pub record RawEnvFrom : Type 0 where
  pub config_map_ref : Option String
  pub secret_ref : Option String

pub record RawValueFrom : Type 0 where
  pub config_map_key_ref : Option String
  pub secret_key_ref : Option String

pub record RawContainer : Type 0 where
  pub env_from : List RawEnvFrom
  pub env : List (Option RawValueFrom)

pub record RawPodSpec : Type 0 where
  pub volumes : List RawVolume
  pub containers : List RawContainer
  pub init_containers : List RawContainer
  pub ephemeral_containers : List RawContainer
  pub image_pull_secrets : List String

-- `json.RawMessage` is `none` where the key is missing; a `null` in the file is there.
pub record RawSpec : Type 0 where
  pub selector : Option Json
  pub pod_selector : Option Json
  pub scale_target_ref : Option RawOwner
  pub pod_spec : RawPodSpec
  pub template : Option RawPodSpec

pub record RawManifest : Type 0 where
  pub api_version : String
  pub kind : String
  pub metadata : RawMetadata
  pub spec : RawSpec

-- Those of request.yaml, where `selector` tells a nil map from an empty one.
pub record RawRef : Type 0 where
  pub group : String
  pub version : String
  pub kind : String
  pub namespace : String
  pub name : String

pub record RawPayload : Type 0 where
  pub labels : Labels
  pub selector : Option Labels
  pub finalizers : List String

pub record RawAction : Type 0 where
  pub verb : String
  pub cascade : Option Bool
  pub target : RawRef
  pub old : Option RawPayload
  pub new : Option RawPayload

-- Those of scope.yaml and taskcontract.yaml, whose clauses are decoded from what the file has.
pub record RawScopeClause : Type 0 where
  pub dim : String
  pub group : String
  pub version : String
  pub kind : String
  pub namespace : String
  pub name : String
  pub root : Option RawRef

pub record RawAllowClause : Type 0 where
  pub dim : String
  pub gvk : RawRef
  pub namespace : String
  pub name : String

pub record RawTcMetadata : Type 0 where
  pub name : String
  pub namespace : String

pub record RawTaskContractSpec : Type 0 where
  pub allow : List Json
  pub max_severity : String

pub record RawTaskContract : Type 0 where
  pub api_version : String
  pub kind : String
  pub metadata : RawTcMetadata
  pub spec : RawTaskContractSpec

-- `yaml.Unmarshal` into each raw type; `none` is an error.
pub record Yaml : Type 0 where
  pub manifest : String → Option RawManifest
  pub action : String → Option RawAction
  pub scope : String → Option (List Json)
  pub contract : String → Option RawTaskContract

-- `SplitN(apiVersion, "/", 2)` has two parts where there is a slash.
unfoldable pub gvk_of : String → String → Gvk
unfolding cut
gvk_of api_version kind = elim (cut api_version) [
  | some (group, version) ↦ record { group = group; version = version; kind = kind }
  | none ↦ record { group = ""; version = api_version; kind = kind }
]

abbrev pub cluster_scoped_kinds : List String
cluster_scoped_kinds =
    "Namespace" ∷ "Node" ∷ "PersistentVolume" ∷ "ClusterRole" ∷ "ClusterRoleBinding"
    ∷ "StorageClass" ∷ "PriorityClass" ∷ "CustomResourceDefinition" ∷ "IngressClass" ∷ "APIService"
    ∷ "ValidatingWebhookConfiguration" ∷ "MutatingWebhookConfiguration" ∷ "RuntimeClass" ∷ []

unfoldable pub ns_of : String → String → String
unfolding has_key
ns_of kind ns = if has_key cluster_scoped_kinds kind then "" else if ns == "" then "default" else ns

unfoldable pub uid_of : String → String → String → String
uid_of kind ns name = "uid:" ++ kind ++ "/" ++ ns ++ "/" ++ name
