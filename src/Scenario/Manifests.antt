-- ===== src/Scenario/Manifests.antt =====
-- internal/scenario/scenario.go: `parseCluster`.
use krsm.Prelude.{
  String, Bool, Option, none, some, List, [], ◌∷◌, ◌==◌, if◌then◌else◌, map, Result, ok, err, ◌>>=◌,
}
use krsm.Selector.{LabelSelector}
use krsm.Model.{Ref, OwnerRef, Object}
use krsm.Scenario.{LoadError, bad_manifest, RawOwner, RawManifest, Yaml, gvk_of, ns_of, uid_of}
use krsm.Scenario.Selectors.{selector_from}
use krsm.Scenario.References.{cross_refs_from}
use krsm.Scenario.Documents.{trim_space, split_documents, strip_comments}

-- Nothing but comments and white space.
unfoldable pub is_bare : String → Bool
unfolding trim_space strip_comments
is_bare doc = trim_space (strip_comments doc) == ""

abbrev pub manifest_namespace : RawManifest → String
manifest_namespace m = ns_of m.kind m.metadata.namespace

abbrev pub owner_ref_of : String → RawOwner → OwnerRef
owner_ref_of ns o = record { kind = o.kind; name = o.name; uid = uid_of o.kind ns o.name }

unfoldable pub ref_of : RawManifest → Ref
unfolding gvk_of ns_of uid_of
ref_of m = record {
  gvk = gvk_of m.api_version m.kind;
  namespace = manifest_namespace m;
  name = m.metadata.name;
  uid = uid_of m.kind (manifest_namespace m) m.metadata.name;
}

unfoldable pub object_from : RawManifest → LabelSelector → Object
unfolding ref_of ns_of uid_of cross_refs_from
object_from m sel = record {
  ref = ref_of m;
  labels = m.metadata.labels;
  selector = sel;
  owners = map (owner_ref_of (manifest_namespace m)) m.metadata.owner_references;
  cross_refs = cross_refs_from (manifest_namespace m) m.spec;
  finalizers = m.metadata.finalizers;
}

module _ (yaml : Yaml) where
  -- The object of one document, none where the loop goes on without one.
  unfoldable pub parse_document : String → Result LoadError (Option Object)
  unfolding is_bare selector_from object_from
  parse_document doc = if is_bare doc then ok none else elim (yaml.manifest doc) [
    | none ↦ err bad_manifest
    | some m ↦
        if m.kind == ""
        then ok none
        else (selector_from m.kind m.spec >>= λ sel. ok (some (object_from m sel)))
  ]

  abbrev pub with_object : Option Object → List Object → List Object
  with_object none objs = objs
  with_object (some o) objs = o ∷ objs

  unfoldable pub parse_documents : List String → Result LoadError (List Object)
  unfolding parse_document
  parse_documents [] = ok []
  parse_documents (doc ∷ docs) = do
    o ← parse_document doc
    objs ← parse_documents docs
    ok (with_object o objs)

  unfoldable pub parse_cluster : String → Result LoadError (List Object)
  unfolding split_documents parse_documents
  parse_cluster raw = parse_documents (split_documents raw)
