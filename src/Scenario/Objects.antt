-- ===== src/Scenario/Objects.antt =====
-- internal/scenario/scenario.go: `parseCluster`, document by document.
use krsm.Prelude.{
  String, true, false, Option, none, some, List, [], ◌∷◌, ◌≡◌, refl, sym, ap, ◌≢◌, ◌⊎◌, inl, inr,
  ◌↔◌, ◌∈◌, ∈-map, subst, Option-cases, ◌==◌, if◌then◌else◌, cut, Json,
}
use krsm.Selector.{LabelSelector, is_nil}
use krsm.Model.{CrossRef, OwnerRef, Object}
use krsm.Scenario.{RawManifest, Yaml, cluster_scoped_kinds, gvk_of, uid_of}
use krsm.Scenario.Identity.{ns_of-eq_empty}
use krsm.Scenario.Resolved.{ValidOperators, UidOfNames, cross_refs_from-named}
use krsm.Scenario.Manifests.{is_bare, manifest_namespace, owner_ref_of, ref_of, object_from}

-- The field that the selector of a manifest is read from.
abbrev pub selector_field : RawManifest → Option Json
selector_field m = if m.kind == "NetworkPolicy" then m.spec.pod_selector else m.spec.selector

-- What the object of a manifest is.
pub record Represents (m : RawManifest) (o : Object) : Type 0 where
  pub kind : (o.ref.gvk.kind ≡ m.kind) × (m.kind ≢ "")
  pub name : o.ref.name ≡ m.metadata.name
  pub namespace : (o.ref.namespace ≡ "") ↔ (m.kind ∈ cluster_scoped_kinds)
  pub uid : o.ref.uid ≡ uid_of o.ref.gvk.kind o.ref.namespace o.ref.name
  pub owners : (w : OwnerRef) → w ∈ o.owners → w.uid ≡ uid_of w.kind o.ref.namespace w.name
  pub references : (r : CrossRef) → r ∈ o.cross_refs → UidOfNames o.ref.namespace r
  pub operators : ValidOperators o.selector
  pub nil : (m.kind ≡ "Service") ⊎ ((is_nil o.selector ≡ true) ↔ (selector_field m ≡ none))

-- The loop goes on without an object.
abbrev pub Skipped : Yaml → String → Type 0
Skipped yaml doc =
    (is_bare doc ≡ true) ⊎ ((m : RawManifest) × (yaml.manifest doc ≡ some m) × (m.kind ≡ ""))

pub data Objects (yaml : Yaml) : List String → List Object → Type 0 where
  no_more : Objects yaml [] []
  skip :
      {doc : String} {docs : List String} {objs : List Object}
      → Skipped yaml doc
      → Objects yaml docs objs
      → Objects yaml (doc ∷ docs) objs
  next :
      {doc : String} {docs : List String} {objs : List Object} (m : RawManifest) (o : Object)
      → is_bare doc ≡ false
      → yaml.manifest doc ≡ some m
      → Represents m o
      → Objects yaml docs objs
      → Objects yaml (doc ∷ docs) (o ∷ objs)

gvk_of-kind : (api_version kind : String) → (gvk_of api_version kind).kind ≡ kind
unfolding gvk_of
gvk_of-kind api_version kind = elim (Option-cases (cut api_version)) [
  | inl e ↦ rw (gvk_of, e)
  | inr (p, e) ↦ rw (gvk_of, e)
]

pub object_from-Represents :
    (m : RawManifest) (sel : LabelSelector)
    → m.kind ≢ ""
    → ValidOperators sel
    → (m.kind ≡ "Service") ⊎ ((is_nil sel ≡ true) ↔ (selector_field m ≡ none))
    → Represents m (object_from m sel)
unfolding object_from ref_of
object_from-Represents m sel n ops nil =
    let k = gvk_of-kind m.api_version m.kind in
    record {
      kind = (k, n);
      name = refl;
      namespace = ns_of-eq_empty m.kind m.metadata.namespace;
      uid = ap (λ x. uid_of x (manifest_namespace m) m.metadata.name) (sym k);
      owners = λ w mem.
          let (o, _, e) =
            (∈-map (owner_ref_of (manifest_namespace m)) w m.metadata.owner_references).0 mem in
          subst (λ (x : OwnerRef). x.uid ≡ uid_of x.kind (manifest_namespace m) x.name) e refl;
      references = cross_refs_from-named (manifest_namespace m) m.spec;
      operators = ops;
      nil = nil;
    }

module _ (yaml : Yaml) where
  -- What one document gives.
  abbrev Gives : String → Option Object → Type 0
  Gives doc none = Skipped yaml doc
  Gives doc (some o) =
      (m : RawManifest) × (is_bare doc ≡ false) × (yaml.manifest doc ≡ some m) × Represents m o
