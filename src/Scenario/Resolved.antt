-- ===== src/Scenario/Resolved.antt =====
-- internal/scenario/scenario.go: the selectors and the references that a manifest is read into.
use krsm.Prelude.{
  String, true, false, not, ◌&&◌, Option, none, some, List, [], ◌∷◌, ◌++◌, ◌≡◌, refl, sym, ap, ◌∙◌,
  inl, inr, ◌↔◌, ◌∈◌, ∈-append, subst, arith, Bool-cases, Option-cases, Json, ok, ok_injective,
  >>=-eq-ok,
}
use krsm.Selector.{LabelSelector, SelectorRequirement, valid_operator, is_nil, is_none, is_empty}
use krsm.Model.{CrossRef, RefKind, ref_volume, ref_image_pull_secret, Gvk}
use krsm.Model.Clause.{no_selector}
use krsm.Scenario.{
  RawSpec, RawSource, RawVolume, RawEnvFrom, RawValueFrom, RawContainer, RawPodSpec, RawOwner,
  uid_of,
}
use krsm.Scenario.Decode.{Wrapper, decode_wrapper, decode_map}
use krsm.Scenario.Selectors.{checked_expressions, selector_of, match_labels, service_selector_from}
use krsm.Scenario.References.{
  core_gvk, gather, ref_to, ref_if, source_refs, volume_refs, env_from_refs, env_refs,
  container_refs, pod_spec_cross_refs, template_refs, scale_target_refs, cross_refs_from,
}

abbrev pub ValidOperators : LabelSelector → Type 0
ValidOperators sel =
    (e : SelectorRequirement) → e ∈ sel.match_expressions → valid_operator e.operator ≡ true

checked_expressions-valid :
    (es out : List SelectorRequirement)
    → checked_expressions es ≡ ok out
    → (out ≡ es) × ((e : SelectorRequirement) → e ∈ es → valid_operator e.operator ≡ true)
unfolding checked_expressions
checked_expressions-valid [] out h = (sym (ok_injective [] out h), λ e m. absurd m)
checked_expressions-valid (x ∷ es) out h = elim (Bool-cases (not (valid_operator x.operator))) [
  | inl e ↦ absurd (cc (rw (checked_expressions, e) at h))
  | inr e ↦
      let (rest, f, g) =
        >>=-eq-ok (checked_expressions es) (λ rs. ok (x ∷ rs)) out
          (rw (checked_expressions, e) at h) in
      let (same, all) = checked_expressions-valid es rest f in
      (
        sym (ok_injective (x ∷ rest) out g) ∙ ap (λ l. x ∷ l) same,
        λ y m. elim m [
          | inl p ↦
              ap (λ (z : SelectorRequirement). valid_operator z.operator) p ∙ ground (arith, e)
          | inr k ↦ all y k
        ],
      )
]

selector_of-present :
    (w : Wrapper) (es : List SelectorRequirement)
    → (is_nil (selector_of w es) ≡ false) × ((selector_of w es).match_expressions ≡ es)
unfolding selector_of is_nil
selector_of-present w es = elim (Bool-cases (is_none w.match_labels && is_empty es)) [
  | inl e ↦ rw e (refl, refl)
  | inr e ↦ rw e (e, refl)
]

-- What is read of a wrapper: nil exactly where there is none, with known operators only.
pub match_labels-reads :
    (raw : Option Json) (sel : LabelSelector)
    → match_labels raw ≡ ok sel
    → ((is_nil sel ≡ true) ↔ (raw ≡ none)) × ValidOperators sel
unfolding match_labels is_nil
match_labels-reads none sel h =
    let e = ok_injective no_selector sel h in
    subst (λ s. ((is_nil s ≡ true) ↔ (◌≡◌ {A = Option Json} none none)) × ValidOperators s) e
      ((λ _. refl, λ _. refl), λ x m. absurd m)
match_labels-reads (some raw) sel h = elim (Option-cases (decode_wrapper raw)) [
  | inl e ↦ absurd (cc (rw (match_labels, e) at h))
  | inr (w, e) ↦
      let (es, f, g) =
        >>=-eq-ok (checked_expressions w.match_expressions) (λ es. ok (selector_of w es)) sel
          (rw (match_labels, e) at h) in
      let (same, all) = checked_expressions-valid w.match_expressions es f in
      let (present, exprs) = selector_of-present w es in
      subst (λ s. ((is_nil s ≡ true) ↔ (some raw ≡ none)) × ValidOperators s)
        (ok_injective (selector_of w es) sel g)
        (
          (λ t. absurd (cc (t, present)), λ t. absurd (cc)),
          λ x m. all x (subst (λ l. x ∈ l) (exprs ∙ same) m),
        )
]

pub service_selector_from-operators :
    (raw : Option Json) (sel : LabelSelector)
    → service_selector_from raw ≡ ok sel
    → sel.match_expressions ≡ []
unfolding service_selector_from
service_selector_from-operators none sel h =
    ap (λ (s : LabelSelector). s.match_expressions) (sym (ok_injective no_selector sel h))
service_selector_from-operators (some raw) sel h = elim (Option-cases (decode_map (some []) raw)) [
  | inl e ↦ absurd (cc (rw (service_selector_from, e) at h))
  | inr (m, e) ↦
      ap (λ (s : LabelSelector). s.match_expressions)
        (sym (
          ok_injective (record { match_labels = m; match_expressions = [] }) sel
            (rw (service_selector_from, e) at h)))
]

-- Each reference carries the uid of its names and stands in the namespace.
abbrev pub UidOfNames : String → CrossRef → Type 0
UidOfNames ns r = (r.ref.namespace ≡ ns) × (r.ref.uid ≡ uid_of r.ref.gvk.kind ns r.ref.name)

abbrev AllNamed : String → List CrossRef → Type 0
AllNamed ns rs = (r : CrossRef) → r ∈ rs → UidOfNames ns r

module _ (ns : String) where
  append-AllNamed :
      (rs qs : List CrossRef) → AllNamed ns rs → AllNamed ns qs → AllNamed ns (rs ++ qs)
  append-AllNamed rs qs a b r m = elim ((∈-append r rs qs).0 m) [ inl k ↦ a r k | inr k ↦ b r k ]

  gather-AllNamed :
      {A : Type 0} (xs : List A) (f : A → List CrossRef)
      → ((x : A) → AllNamed ns (f x))
      → AllNamed ns (gather xs f)
  gather-AllNamed [] f h = λ r m. absurd m
  gather-AllNamed (x ∷ xs) f h = append-AllNamed (f x) (gather xs f) (h x) (gather-AllNamed xs f h)

  one-AllNamed :
      (kind : RefKind) (gvk : Gvk) (name : String) → AllNamed ns (ref_to ns kind gvk name ∷ [])
  unfolding ref_to
  one-AllNamed kind gvk name r (inl e) = subst (UidOfNames ns) (sym e) (refl, refl)
  one-AllNamed kind gvk name r (inr m) = absurd m

  ref_if-AllNamed :
      (kind : RefKind) (k : String) (o : Option String) → AllNamed ns (ref_if ns kind k o)
  ref_if-AllNamed kind k none = λ r m. absurd m
  ref_if-AllNamed kind k (some name) = one-AllNamed kind (core_gvk k) name

  source_refs-AllNamed : (s : RawSource) → AllNamed ns (source_refs ns s)
  source_refs-AllNamed s =
      append-AllNamed _ _ (ref_if-AllNamed _ _ s.config_map) (ref_if-AllNamed _ _ s.secret)

  volume_refs-AllNamed : (v : RawVolume) → AllNamed ns (volume_refs ns v)
  unfolding volume_refs
  volume_refs-AllNamed v = elim (Option-cases v.config_map) [
    | inr (n, e) ↦ rw (volume_refs, e) (one-AllNamed ref_volume (core_gvk "ConfigMap") n)
    | inl e ↦ elim (Option-cases v.secret) [
      | inr (n, f) ↦ rw (volume_refs, e, f) (one-AllNamed ref_volume (core_gvk "Secret") n)
      | inl f ↦ elim (Option-cases v.pvc) [
        | inr (n, g) ↦
            rw (volume_refs, e, f, g) (one-AllNamed ref_volume (core_gvk "PersistentVolumeClaim") n)
        | inl g ↦ elim (Option-cases v.projected) [
          | inr (ss, k) ↦
              rw (volume_refs, e, f, g, k)
                (gather-AllNamed ss (source_refs ns) source_refs-AllNamed)
          | inl k ↦ rw (volume_refs, e, f, g, k) (λ r m. absurd m)
        ]
      ]
    ]
  ]

  env_refs-AllNamed : (v : Option RawValueFrom) → AllNamed ns (env_refs ns v)
  env_refs-AllNamed none = λ r m. absurd m
  env_refs-AllNamed (some v) =
      append-AllNamed _ _ (ref_if-AllNamed _ _ v.config_map_key_ref)
        (ref_if-AllNamed _ _ v.secret_key_ref)

  env_from_refs-AllNamed : (e : RawEnvFrom) → AllNamed ns (env_from_refs ns e)
  env_from_refs-AllNamed e =
      append-AllNamed _ _ (ref_if-AllNamed _ _ e.config_map_ref) (ref_if-AllNamed _ _ e.secret_ref)

  container_refs-AllNamed : (c : RawContainer) → AllNamed ns (container_refs ns c)
  unfolding container_refs
  container_refs-AllNamed c =
      append-AllNamed _ _ (gather-AllNamed c.env_from (env_from_refs ns) env_from_refs-AllNamed)
        (gather-AllNamed c.env (env_refs ns) env_refs-AllNamed)

  pod_spec_cross_refs-AllNamed : (ps : RawPodSpec) → AllNamed ns (pod_spec_cross_refs ns ps)
  unfolding pod_spec_cross_refs
  pod_spec_cross_refs-AllNamed ps =
      append-AllNamed _ _ (gather-AllNamed ps.volumes (volume_refs ns) volume_refs-AllNamed) (
        append-AllNamed _ _
          (gather-AllNamed (ps.containers ++ (ps.init_containers ++ ps.ephemeral_containers))
            (container_refs ns) container_refs-AllNamed)
          (gather-AllNamed ps.image_pull_secrets _
            (one-AllNamed ref_image_pull_secret (core_gvk "Secret"))))

  template_refs-AllNamed : (o : Option RawPodSpec) → AllNamed ns (template_refs ns o)
  template_refs-AllNamed none = λ r m. absurd m
  template_refs-AllNamed (some ps) = pod_spec_cross_refs-AllNamed ps

  scale_target_refs-AllNamed : (o : Option RawOwner) → AllNamed ns (scale_target_refs ns o)
  scale_target_refs-AllNamed none = λ r m. absurd m
  scale_target_refs-AllNamed (some t) = one-AllNamed _ _ t.name

  pub cross_refs_from-named :
      (spec : RawSpec) (r : CrossRef) → r ∈ cross_refs_from ns spec → UidOfNames ns r
  unfolding cross_refs_from
  cross_refs_from-named spec = append-AllNamed _ _ (pod_spec_cross_refs-AllNamed spec.pod_spec) (
      append-AllNamed _ _ (template_refs-AllNamed spec.template)
        (scale_target_refs-AllNamed spec.scale_target_ref))
