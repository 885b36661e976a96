-- ===== src/Cluster/Build.antt =====
-- internal/cluster/build.go: the index of the listed objects, the projection of one object, and that
-- of all of them, which fails as a whole.
use krsm.Cluster.{
  BuildError, Unstructured, missing_kind, missing_name, nested_string, nested_string_map,
  nested_string_slice, maps_at, selector_from_unstructured,
}
use krsm.Prelude.{
  String, Bool, true, false, Option, none, some, List, [], ◌∷◌, ◌==◌, if◌then◌else◌, map, cut,
  Result, ok, err, ◌>>=◌, Fields,
}
use krsm.Selector.{Labels, LabelSelector}
use krsm.Model.{Gvk, OwnerRef, Object}
use krsm.Cluster.References.{NameUidIndex, cross_refs_from_unstructured}

-- `ScopeInfo.Namespaced`: whether the kind is namespaced, none where that is unknown.
abbrev pub ScopeInfo : Type 0
ScopeInfo = Gvk → Option Bool

module _ (api : Unstructured) where
  unfoldable pub finalizers_of : Fields → List String
  unfolding nested_string_slice
  finalizers_of o = elim (nested_string_slice api o ("metadata" ∷ "finalizers" ∷ [])) [
    | none ↦ []
    | some fs ↦ fs
  ]

  unfoldable pub labels_of : Fields → Labels
  unfolding nested_string_map
  labels_of o = elim (nested_string_map api o ("metadata" ∷ "labels" ∷ [])) [
    | none ↦ []
    | some m ↦ m
  ]

  abbrev pub owner_of : Fields → OwnerRef
  owner_of m = record {
    kind = nested_string api m ("kind" ∷ []);
    name = nested_string api m ("name" ∷ []);
    uid = nested_string api m ("uid" ∷ []);
  }

  unfoldable pub owners_of : Fields → List OwnerRef
  unfolding maps_at nested_string
  owners_of o = map owner_of (maps_at api o ("metadata" ∷ "ownerReferences" ∷ []))

  unfoldable pub kind_name : Fields → Result BuildError (String × String)
  unfolding nested_string
  kind_name o =
      let kind = nested_string api o ("kind" ∷ []) in
      let name = nested_string api o ("metadata" ∷ "name" ∷ []) in
      if kind == ""
      then err missing_kind
      else if name == ""
      then err missing_name
      else ok (kind, name)

  -- `group/version`, or the version of the core group.
  unfoldable pub gvk_of : Fields → Gvk
  unfolding nested_string cut
  gvk_of o =
      let api_version = nested_string api o ("apiVersion" ∷ []) in
      let kind = nested_string api o ("kind" ∷ []) in
      elim (cut api_version) [
        | some (group, version) ↦ record { group = group; version = version; kind = kind }
        | none ↦ record { group = ""; version = api_version; kind = kind }
      ]

  module _ (scope : ScopeInfo) where
    unfoldable pub resolve_namespace : Fields → String
    unfolding gvk_of nested_string
    resolve_namespace o =
        let ns = nested_string api o ("metadata" ∷ "namespace" ∷ []) in
        let given : String = if ns == "" then "default" else ns in
        elim (scope (gvk_of o)) [ some false ↦ "" | some true ↦ given | none ↦ given ]

    -- One round of the loop of `newNameUIDIndex`.
    abbrev pub index_entry : Fields → String × String → NameUidIndex → NameUidIndex
    index_entry o kn ix =
        let uid = nested_string api o ("metadata" ∷ "uid" ∷ []) in
        if uid == ""
        then ix
        else (record { kind = kn.0; namespace = resolve_namespace o; name = kn.1 }, uid) ∷ ix

    unfoldable pub index_loop : List Fields → NameUidIndex → Result BuildError NameUidIndex
    unfolding kind_name resolve_namespace nested_string
    index_loop [] ix = ok ix
    index_loop (o ∷ objs) ix = kind_name o >>= λ kn. index_loop objs (index_entry o kn ix)

    unfoldable pub new_name_uid_index : List Fields → Result BuildError NameUidIndex
    unfolding index_loop
    new_name_uid_index objs = index_loop objs []

    -- The object once its kind, name and selector are read.
    abbrev pub object_of : NameUidIndex → Fields → String → LabelSelector → Object
    object_of ix o name selector = record {
      ref = record {
        gvk = gvk_of o;
        namespace = resolve_namespace o;
        name = name;
        uid = nested_string api o ("metadata" ∷ "uid" ∷ []);
      };
      labels = labels_of o;
      selector = selector;
      owners = owners_of o;
      cross_refs = cross_refs_from_unstructured api (resolve_namespace o) ix o;
      finalizers = finalizers_of o;
    }

    unfoldable pub build_one : NameUidIndex → Fields → Result BuildError Object
    unfolding kind_name gvk_of resolve_namespace selector_from_unstructured labels_of owners_of
        cross_refs_from_unstructured finalizers_of nested_string
    build_one ix o = do
      (kind, name) ← kind_name o
      selector ← selector_from_unstructured api kind o
      ok (object_of ix o name selector)

    unfoldable pub build_loop : NameUidIndex → List Fields → Result BuildError (List Object)
    unfolding build_one
    build_loop ix [] = ok []
    build_loop ix (o ∷ objs) = do x ← build_one ix o; rest ← build_loop ix objs; ok (x ∷ rest)

    unfoldable pub build_objects : List Fields → Result BuildError (List Object)
    unfolding new_name_uid_index build_loop
    build_objects objs = do ix ← new_name_uid_index objs; build_loop ix objs
