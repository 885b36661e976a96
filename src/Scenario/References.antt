-- ===== src/Scenario/References.antt =====
-- internal/scenario/scenario.go: `crossRefsFrom` and `podSpecCrossRefs`.
use krsm.Prelude.{String, Option, none, some, List, [], ◌∷◌, ◌++◌}
use krsm.Model.{
  Gvk, RefKind, ref_volume, ref_env_from, ref_env, ref_scale_target, ref_image_pull_secret,
  CrossRef,
}
use krsm.Scenario.{
  RawSource, RawVolume, RawEnvFrom, RawValueFrom, RawContainer, RawPodSpec, RawOwner, RawSpec,
  uid_of,
}

-- A kind of the core group, version v1.
abbrev pub core_gvk : String → Gvk
core_gvk kind = record { group = ""; version = "v1"; kind = kind }

-- `for _, x := range xs { out = append(out, f(x)...) }`
abbrev pub gather : {A : Type 0} → List A → (A → List CrossRef) → List CrossRef
gather [] f = []
gather (x ∷ xs) f = f x ++ gather xs f

module _ (ns : String) where
  unfoldable pub ref_to : RefKind → Gvk → String → CrossRef
  unfolding uid_of
  ref_to kind gvk name = record {
    kind = kind;
    ref = record { gvk = gvk; namespace = ns; name = name; uid = uid_of gvk.kind ns name };
  }

  -- `if p != nil { out = append(out, …) }`
  abbrev pub ref_if : RefKind → String → Option String → List CrossRef
  ref_if kind k none = []
  ref_if kind k (some name) = ref_to kind (core_gvk k) name ∷ []

  abbrev pub source_refs : RawSource → List CrossRef
  source_refs src =
      ref_if ref_volume "ConfigMap" src.config_map ++ ref_if ref_volume "Secret" src.secret

  -- The switch: the first source that is there counts.
  unfoldable pub volume_refs : RawVolume → List CrossRef
  unfolding ref_to
  volume_refs v = elim v.config_map [
    | some name ↦ ref_to ref_volume (core_gvk "ConfigMap") name ∷ []
    | none ↦ elim v.secret [
      | some name ↦ ref_to ref_volume (core_gvk "Secret") name ∷ []
      | none ↦ elim v.pvc [
        | some name ↦ ref_to ref_volume (core_gvk "PersistentVolumeClaim") name ∷ []
        | none ↦ elim v.projected [ some sources ↦ gather sources source_refs | none ↦ [] ]
      ]
    ]
  ]

  abbrev pub env_from_refs : RawEnvFrom → List CrossRef
  env_from_refs e =
      ref_if ref_env_from "ConfigMap" e.config_map_ref ++ ref_if ref_env_from "Secret" e.secret_ref

  abbrev pub env_refs : Option RawValueFrom → List CrossRef
  env_refs none = []
  env_refs (some v) =
      ref_if ref_env "ConfigMap" v.config_map_key_ref ++ ref_if ref_env "Secret" v.secret_key_ref

  unfoldable pub container_refs : RawContainer → List CrossRef
  unfolding ref_to
  container_refs c = gather c.env_from env_from_refs ++ gather c.env env_refs

  unfoldable pub pod_spec_cross_refs : RawPodSpec → List CrossRef
  unfolding ref_to volume_refs container_refs
  pod_spec_cross_refs ps =
      gather ps.volumes volume_refs
      ++ (gather (ps.containers ++ (ps.init_containers ++ ps.ephemeral_containers)) container_refs
          ++ gather ps.image_pull_secrets
              (λ name. ref_to ref_image_pull_secret (core_gvk "Secret") name ∷ []))

  abbrev pub template_refs : Option RawPodSpec → List CrossRef
  template_refs none = []
  template_refs (some ps) = pod_spec_cross_refs ps

  abbrev pub scale_target_refs : Option RawOwner → List CrossRef
  scale_target_refs none = []
  scale_target_refs (some t) =
      ref_to ref_scale_target (record { group = ""; version = ""; kind = t.kind }) t.name ∷ []

  unfoldable pub cross_refs_from : RawSpec → List CrossRef
  unfolding pod_spec_cross_refs ref_to
  cross_refs_from spec =
      pod_spec_cross_refs spec.pod_spec
      ++ (template_refs spec.template ++ scale_target_refs spec.scale_target_ref)
