-- ===== src/Cluster/References.antt =====
-- internal/cluster/crossref.go and index.go: the references of a pod, a workload or an autoscaler, and
-- the index that resolves a name to the uid of a listed object.
use krsm.Prelude.{String, Bool, ◌&&◌, none, some, List, [], ◌∷◌, ◌++◌, ◌==◌, if◌then◌else◌, Fields}
use krsm.Model.{
  Gvk, RefKind, ref_volume, ref_env_from, ref_env, ref_scale_target, ref_image_pull_secret,
  CrossRef,
}
use krsm.Cluster.{Unstructured, nested_string, nested_map, maps_at, has_field}

pub record HumanKey : Type 0 where
  pub kind : String
  pub namespace : String
  pub name : String

unfoldable pub human_key_eq : HumanKey → HumanKey → Bool
human_key_eq a b = (a.kind == b.kind) && (a.namespace == b.namespace) && (a.name == b.name)

-- A map written in this order: the last entry of a key is the one that counts.
abbrev pub NameUidIndex : Type 0
NameUidIndex = List (HumanKey × String)

-- `ix[k]`, where the newest entry stands first.
unfoldable pub index_lookup : NameUidIndex → HumanKey → String
unfolding human_key_eq
index_lookup [] k = ""
index_lookup ((j, uid) ∷ ix) k = if human_key_eq j k then uid else index_lookup ix k

unfoldable pub uid_for : NameUidIndex → String → String → String → String
unfolding index_lookup
uid_for ix kind namespace name =
    index_lookup ix (record { kind = kind; namespace = namespace; name = name })

abbrev pub cm_gvk : Gvk
cm_gvk = record { group = ""; version = "v1"; kind = "ConfigMap" }

abbrev pub secret_gvk : Gvk
secret_gvk = record { group = ""; version = "v1"; kind = "Secret" }

abbrev pub pvc_gvk : Gvk
pvc_gvk = record { group = ""; version = "v1"; kind = "PersistentVolumeClaim" }

-- `for _, m := range maps { out = append(out, f(m)...) }`
abbrev pub each : List Fields → (Fields → List CrossRef) → List CrossRef
each [] f = []
each (m ∷ ms) f = f m ++ each ms f

abbrev pub refs_if : Bool → CrossRef → List CrossRef
refs_if b r = if b then r ∷ [] else []

module _ (api : Unstructured) (ns : String) (ix : NameUidIndex) where
  unfoldable pub cross_ref : RefKind → Gvk → String → CrossRef
  unfolding uid_for
  cross_ref kind gvk name = record {
    kind = kind;
    ref = record { gvk = gvk; namespace = ns; name = name; uid = uid_for ix gvk.kind ns name };
  }

  -- One entry of `projected.sources`.
  unfoldable pub source_refs : Fields → List CrossRef
  unfolding cross_ref has_field nested_string
  source_refs sm =
      refs_if (has_field api sm ("configMap" ∷ []))
        (cross_ref ref_volume cm_gvk (nested_string api sm ("configMap" ∷ "name" ∷ [])))
      ++ refs_if (has_field api sm ("secret" ∷ []))
          (cross_ref ref_volume secret_gvk (nested_string api sm ("secret" ∷ "name" ∷ [])))

  -- One entry of `volumes`: the first source that is there counts.
  unfoldable pub volume_refs : Fields → List CrossRef
  unfolding cross_ref has_field nested_string maps_at source_refs
  volume_refs vm =
      if has_field api vm ("configMap" ∷ [])
      then cross_ref ref_volume cm_gvk (nested_string api vm ("configMap" ∷ "name" ∷ [])) ∷ []
      else if has_field api vm ("secret" ∷ [])
      then cross_ref ref_volume secret_gvk (nested_string api vm ("secret" ∷ "secretName" ∷ []))
        ∷ []
      else if has_field api vm ("persistentVolumeClaim" ∷ [])
      then cross_ref ref_volume pvc_gvk
          (nested_string api vm ("persistentVolumeClaim" ∷ "claimName" ∷ []))
        ∷ []
      else if has_field api vm ("projected" ∷ [])
      then each (maps_at api vm ("projected" ∷ "sources" ∷ [])) source_refs
      else []

  unfoldable pub env_from_refs : Fields → List CrossRef
  unfolding cross_ref has_field nested_string
  env_from_refs em =
      refs_if (has_field api em ("configMapRef" ∷ []))
        (cross_ref ref_env_from cm_gvk (nested_string api em ("configMapRef" ∷ "name" ∷ [])))
      ++ refs_if (has_field api em ("secretRef" ∷ []))
          (cross_ref ref_env_from secret_gvk (nested_string api em ("secretRef" ∷ "name" ∷ [])))

  unfoldable pub env_refs : Fields → List CrossRef
  unfolding cross_ref has_field nested_string nested_map
  env_refs em = elim (nested_map api em ("valueFrom" ∷ [])) [
    | none ↦ []
    | some vf ↦
        refs_if (has_field api vf ("configMapKeyRef" ∷ []))
          (cross_ref ref_env cm_gvk (nested_string api vf ("configMapKeyRef" ∷ "name" ∷ [])))
        ++ refs_if (has_field api vf ("secretKeyRef" ∷ []))
            (cross_ref ref_env secret_gvk (nested_string api vf ("secretKeyRef" ∷ "name" ∷ [])))
  ]

  unfoldable pub container_cross_refs : Fields → List CrossRef
  unfolding maps_at env_from_refs env_refs
  container_cross_refs c =
      each (maps_at api c ("envFrom" ∷ [])) env_from_refs
      ++ each (maps_at api c ("env" ∷ [])) env_refs

  unfoldable pub pull_refs : Fields → List CrossRef
  unfolding cross_ref nested_string
  pull_refs pm =
      cross_ref ref_image_pull_secret secret_gvk (nested_string api pm ("name" ∷ [])) ∷ []

  unfoldable pub pod_spec_cross_refs : Fields → List CrossRef
  unfolding maps_at volume_refs container_cross_refs pull_refs
  pod_spec_cross_refs ps =
      each (maps_at api ps ("volumes" ∷ [])) volume_refs
      ++ (each (maps_at api ps ("containers" ∷ [])) container_cross_refs
          ++ (each (maps_at api ps ("initContainers" ∷ [])) container_cross_refs
              ++ (each (maps_at api ps ("ephemeralContainers" ∷ [])) container_cross_refs
                  ++ each (maps_at api ps ("imagePullSecrets" ∷ [])) pull_refs)))

  -- The references of `spec.template.spec`, and of `spec.scaleTargetRef`.
  unfoldable pub template_refs : Fields → List CrossRef
  unfolding nested_map pod_spec_cross_refs
  template_refs spec = elim (nested_map api spec ("template" ∷ "spec" ∷ [])) [
    | none ↦ []
    | some tmpl ↦ pod_spec_cross_refs tmpl
  ]

  unfoldable pub scale_target_refs : Fields → List CrossRef
  unfolding nested_map nested_string cross_ref
  scale_target_refs spec = elim (nested_map api spec ("scaleTargetRef" ∷ [])) [
    | none ↦ []
    | some str ↦
        cross_ref ref_scale_target
          (record { group = ""; version = ""; kind = nested_string api str ("kind" ∷ []) })
          (nested_string api str ("name" ∷ []))
        ∷ []
  ]

  unfoldable pub cross_refs_from_unstructured : Fields → List CrossRef
  unfolding nested_map pod_spec_cross_refs template_refs scale_target_refs
  cross_refs_from_unstructured o = elim (nested_map api o ("spec" ∷ [])) [
    | none ↦ []
    | some spec ↦ pod_spec_cross_refs spec ++ (template_refs spec ++ scale_target_refs spec)
  ]
