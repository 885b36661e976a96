-- ===== src/Model.antt =====
-- closure/model.go: identities, objects, actions and decisions. `ScopeClause` and its checks are in
-- `Clause`. A field of text that Go leaves empty is the empty text, and a nil map or slice that the
-- code never tells from an empty one is the empty list.
pub mod Validity
pub mod Clause
use Prim.Native.String.{◌++◌}
use krsm.Prelude.{ℕ, String, Bool, ◌&&◌, Option, List, ◌==◌, if◌then◌else◌, not}
use krsm.Selector.{LabelSelector, Labels}

pub record Gvk : Type 0 where
  pub group : String
  pub version : String
  pub kind : String

pub record Ref : Type 0 where
  pub gvk : Gvk
  pub namespace : String
  pub name : String
  pub uid : String

-- The Kind/namespace/name form of a reference, as `fmt.Sprintf("%s/%s/%s", …)` gives it.
unfoldable pub human : Ref → String
human r = r.gvk.kind ++ "/" ++ r.namespace ++ "/" ++ r.name

unfoldable pub key : Ref → String
unfolding human
key r = if not (r.uid == "") then "uid:" ++ r.uid else human r

-- Go's `==` on two `GVK` and on two `Ref` values.
unfoldable pub gvk_eq : Gvk → Gvk → Bool
gvk_eq g h = (g.group == h.group) && (g.version == h.version) && (g.kind == h.kind)

unfoldable pub ref_eq : Ref → Ref → Bool
unfolding gvk_eq
ref_eq r q =
    gvk_eq r.gvk q.gvk && (r.namespace == q.namespace) && (r.name == q.name) && (r.uid == q.uid)

-- The zero values `GVK{}` and `Ref{}`.
abbrev pub no_gvk : Gvk
no_gvk = record { group = ""; version = ""; kind = "" }

abbrev pub no_ref : Ref
no_ref = record { gvk = no_gvk; namespace = ""; name = ""; uid = "" }

pub record OwnerRef : Type 0 where
  pub kind : String
  pub name : String
  pub uid : String

pub data RefKind : Type 0 where
  ref_volume ref_env_from ref_env ref_scale_target ref_image_pull_secret : RefKind

pub record CrossRef : Type 0 where
  pub kind : RefKind
  pub ref : Ref

pub record Object : Type 0 where
  pub ref : Ref
  pub labels : Labels
  pub selector : LabelSelector
  pub owners : List OwnerRef
  pub cross_refs : List CrossRef
  pub finalizers : List String

-- `Verb` is a string type, whose constants need not be its only values.
abbrev pub Verb : Type 0
Verb = String

abbrev pub delete : Verb
delete = "delete"

abbrev pub update : Verb
update = "update"

abbrev pub patch : Verb
patch = "patch"

abbrev pub scale : Verb
scale = "scale"

abbrev pub restart : Verb
restart = "restart"

pub record Action : Type 0 where
  pub verb : Verb
  pub target : Ref
  pub cascade : Bool
  pub old : Option Object
  pub new : Option Object

pub data Verdict : Type 0 where
  allow warn block : Verdict

pub record Decision : Type 0 where
  pub verdict : Verdict
  pub reason : String
  pub closure : List Ref
  pub escaping : List Ref
  pub external : List Ref
