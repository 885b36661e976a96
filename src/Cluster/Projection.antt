-- ===== src/Cluster/Projection.antt =====
-- internal/cluster/build.go: what an object has of the unstructured one that it stands for.
use krsm.Prelude.{
  subst, String, true, false, Option, some, List, [], ◌∷◌, map, ◌≡◌, ◌≢◌, inl, inr, ◌==◌,
  Bool-cases, Option-cases, ne, eq_iff, cut, CutAs, cut_sound, has_slash, cut-none, Fields,
}
use krsm.Selector.{Labels}
use krsm.Model.{Gvk, OwnerRef, Object}
use krsm.Cluster.{Unstructured, nested_string, nested_string_map, nested_string_slice, maps_at}
use krsm.Cluster.Strings.{TextAt, nested_string-TextAt}
use krsm.Cluster.Contents.{OrEmpty, as_read, as_empty, LabelsAt, TextsAt, MapsAt}
use krsm.Cluster.Selects.{Selects}
use krsm.Cluster.Build.{
  ScopeInfo, gvk_of, resolve_namespace, labels_of, owner_of, owners_of, finalizers_of,
}

-- The group and the version of an API version: around its slash, or none and the whole of it.
pub data Versions (text : String) : Gvk → Type 0 where
  grouped :
      {kind : String} (g v : String)
      → CutAs text (g, v)
      → Versions text (record { group = g; version = v; kind = kind })
  core :
      {kind : String}
      → has_slash text ≡ false
      → Versions text (record { group = ""; version = text; kind = kind })

-- The fields of an owner reference.
pub record IsOwner (api : Unstructured) (m : Fields) (w : OwnerRef) : Type 0 where
  pub kind : TextAt api m ("kind" ∷ []) w.kind
  pub name : TextAt api m ("name" ∷ []) w.name
  pub uid : TextAt api m ("uid" ∷ []) w.uid

pub data AreOwners (api : Unstructured) : List Fields → List OwnerRef → Type 0 where
  no_owners : AreOwners api [] []
  one_owner :
      {m : Fields} {w : OwnerRef} {ms : List Fields} {ws : List OwnerRef}
      → IsOwner api m w
      → AreOwners api ms ws
      → AreOwners api (m ∷ ms) (w ∷ ws)

module _ (api : Unstructured) (scope : ScopeInfo) where
  -- The namespace of an object: none for a kind that is known to be cluster-scoped; for any other
  -- kind, one whose scope is unknown included, the one that it is listed with, or the default one.
  pub data Placed (o : Fields) (gvk : Gvk) : String → Type 0 where
    cluster_wide : scope gvk ≡ some false → Placed o gvk ""
    by_default :
        scope gvk ≢ some false
        → TextAt api o ("metadata" ∷ "namespace" ∷ []) ""
        → Placed o gvk "default"
    as_listed :
        {ns : String}
        → scope gvk ≢ some false
        → TextAt api o ("metadata" ∷ "namespace" ∷ []) ns
        → ns ≢ ""
        → Placed o gvk ns

  -- The object stands for the listed one, whose texts, labels, owners, finalizers and selector it has.
  pub record StandsFor (o : Fields) (x : Object) : Type 0 where
    pub kind : TextAt api o ("kind" ∷ []) x.ref.gvk.kind × (x.ref.gvk.kind ≢ "")
    pub api_version : String
    pub api_version_at : TextAt api o ("apiVersion" ∷ []) api_version
    pub group_version : Versions api_version x.ref.gvk
    pub name : TextAt api o ("metadata" ∷ "name" ∷ []) x.ref.name × (x.ref.name ≢ "")
    pub namespace : Placed o x.ref.gvk x.ref.namespace
    pub uid : TextAt api o ("metadata" ∷ "uid" ∷ []) x.ref.uid
    pub labels_read : Option Labels
    pub labels_at : LabelsAt api o ("metadata" ∷ "labels" ∷ []) labels_read
    pub labels : OrEmpty labels_read x.labels
    pub selector : Selects api o x.ref.gvk.kind x.selector
    pub owners_read : List Fields
    pub owners_at : MapsAt api o ("metadata" ∷ "ownerReferences" ∷ []) owners_read
    pub owners : AreOwners api owners_read x.owners
    pub finalizers_read : Option (List String)
    pub finalizers_at : TextsAt api o ("metadata" ∷ "finalizers" ∷ []) finalizers_read
    pub finalizers : OrEmpty finalizers_read x.finalizers

  pub gvk_of-kind : (o : Fields) → (gvk_of api o).kind ≡ nested_string api o ("kind" ∷ [])
  unfolding gvk_of
  gvk_of-kind o = elim (Option-cases (cut (nested_string api o ("apiVersion" ∷ [])))) [
    | inl e ↦ rw (gvk_of, e)
    | inr (p, e) ↦ rw (gvk_of, e)
  ]

  pub gvk_of-Versions :
      (o : Fields) → Versions (nested_string api o ("apiVersion" ∷ [])) (gvk_of api o)
  unfolding gvk_of
  gvk_of-Versions o =
      let text = nested_string api o ("apiVersion" ∷ []) in
      elim (Option-cases (cut text)) [
        | inl e ↦ rw (gvk_of, e) (core (cut-none text e))
        | inr ((g, v), e) ↦ rw (gvk_of, e) (grouped g v (cut_sound text (g, v) e))
      ]

  pub resolve_namespace-Placed :
      (o : Fields) → Placed o (gvk_of api o) (resolve_namespace api scope o)
  unfolding resolve_namespace
  resolve_namespace-Placed o =
      let ns = nested_string api o ("metadata" ∷ "namespace" ∷ []) in
      let read = nested_string-TextAt api o ("metadata" ∷ "namespace" ∷ []) in
      let empty : (ns == "") ≡ true → TextAt api o ("metadata" ∷ "namespace" ∷ []) "" =
        λ f. subst (TextAt api o ("metadata" ∷ "namespace" ∷ [])) ((eq_iff ns "").0 f) read in
      elim (Option-cases (scope (gvk_of api o))) [
        | inl e ↦ elim (Bool-cases (ns == "")) [
          | inl f ↦ rw (resolve_namespace, e, f) (by_default (λ z. absurd (cc)) (empty f))
          | inr f ↦ rw (resolve_namespace, e, f) (as_listed (λ z. absurd (cc)) read (ne ns "" f))
        ]
        | inr (true, e) ↦ elim (Bool-cases (ns == "")) [
          | inl f ↦ rw (resolve_namespace, e, f) (by_default (λ z. absurd (cc)) (empty f))
          | inr f ↦ rw (resolve_namespace, e, f) (as_listed (λ z. absurd (cc)) read (ne ns "" f))
        ]
        | inr (false, e) ↦ rw (resolve_namespace, e) (cluster_wide e)
      ]

  pub owners_of-AreOwners :
      (o : Fields)
      → AreOwners api (maps_at api o ("metadata" ∷ "ownerReferences" ∷ [])) (owners_of api o)
  unfolding owners_of
  owners_of-AreOwners o = all_owners (maps_at api o ("metadata" ∷ "ownerReferences" ∷ []))
    where
      all_owners : (ms : List Fields) → AreOwners api ms (map (owner_of api) ms)
      all_owners [] = no_owners
      all_owners (m ∷ ms) =
          one_owner
            (record {
              kind = nested_string-TextAt api m ("kind" ∷ []);
              name = nested_string-TextAt api m ("name" ∷ []);
              uid = nested_string-TextAt api m ("uid" ∷ []);
            })
            (all_owners ms)

  pub labels_of-OrEmpty :
      (o : Fields)
      → OrEmpty (nested_string_map api o ("metadata" ∷ "labels" ∷ [])) (labels_of api o)
  unfolding labels_of
  labels_of-OrEmpty o = elim (Option-cases (nested_string_map api o ("metadata" ∷ "labels" ∷ []))) [
    | inl e ↦ rw (labels_of, e) as_empty
    | inr (m, e) ↦ rw (labels_of, e) as_read
  ]

  pub finalizers_of-OrEmpty :
      (o : Fields)
      → OrEmpty (nested_string_slice api o ("metadata" ∷ "finalizers" ∷ [])) (finalizers_of api o)
  unfolding finalizers_of
  finalizers_of-OrEmpty o =
      elim (Option-cases (nested_string_slice api o ("metadata" ∷ "finalizers" ∷ []))) [
        | inl e ↦ rw (finalizers_of, e) as_empty
        | inr (m, e) ↦ rw (finalizers_of, e) as_read
      ]
