-- ===== src/Scenario/Owners.antt =====
-- internal/scenario/scenario.go: which objects an owner reference of a manifest makes owners.
use Prim.Native.String.{◌++◌}
use krsm.Prelude.{
  String, true, false, none, some, ◌≡◌, ◌≢◌, refl, sym, ap, ◌∙◌, ◌↔◌, inl, inr, ◌∈◌, ∈-map, ◌==◌,
  ne, eq_iff, Bool-cases, has_key, has_key_iff, has_slash, strip_prefix, strip_prefix-append, subst,
}
use krsm.Model.{OwnerRef}
use krsm.Selector.{LabelSelector}
use krsm.State.{is_owned_by}
use krsm.State.Binding.{OwnedBy, is_owned_by_iff}
use krsm.Scenario.{RawManifest, RawOwner, cluster_scoped_kinds, ns_of, uid_of}
use krsm.Scenario.Manifests.{object_from, manifest_namespace, owner_ref_of}
use krsm.Scenario.Identity.{uid_of_unique}

-- The namespace in which the object of a manifest stands: none for a kind that is cluster-scoped,
-- the one that is given, or the default one.
pub data StandsIn (m : RawManifest) : String → Type 0 where
  no_namespace : m.kind ∈ cluster_scoped_kinds → StandsIn m ""
  by_default : ¬ (m.kind ∈ cluster_scoped_kinds) → m.metadata.namespace ≡ "" → StandsIn m "default"
  given :
      ¬ (m.kind ∈ cluster_scoped_kinds)
      → m.metadata.namespace ≢ ""
      → StandsIn m m.metadata.namespace

-- No slash in the two texts that come before others in a uid.
abbrev pub Plain : RawManifest → Type 0
Plain m = (has_slash m.kind ≡ false) × (has_slash m.metadata.namespace ≡ false)

manifest_namespace-StandsIn : (m : RawManifest) → StandsIn m (manifest_namespace m)
unfolding ns_of
manifest_namespace-StandsIn m =
    let ns = m.metadata.namespace in
    elim (Bool-cases (has_key cluster_scoped_kinds m.kind)) [
      | inl e ↦ rw e (no_namespace ((has_key_iff cluster_scoped_kinds m.kind).0 e))
      | inr e ↦
          let free : ¬ (m.kind ∈ cluster_scoped_kinds) =
            λ k. cc (e, (has_key_iff cluster_scoped_kinds m.kind).1 k) in
          elim (Bool-cases (ns == "")) [
            | inl f ↦ rw (e, f) (by_default free ((eq_iff ns "").0 f))
            | inr f ↦ rw (e, f) (given free (ne ns "" f))
          ]
    ]

StandsIn-unique : (m : RawManifest) (x : String) → StandsIn m x → x ≡ manifest_namespace m
unfolding ns_of
StandsIn-unique m _ (no_namespace k) = rw ((has_key_iff cluster_scoped_kinds m.kind).1 k) refl
StandsIn-unique m _ (by_default n e) = elim (Bool-cases (has_key cluster_scoped_kinds m.kind)) [
  | inl k ↦ absurd (n ((has_key_iff cluster_scoped_kinds m.kind).0 k))
  | inr k ↦ rw (k, (eq_iff m.metadata.namespace "").1 e) refl
]
StandsIn-unique m _ (given n e) = elim (Bool-cases (has_key cluster_scoped_kinds m.kind)) [
  | inl k ↦ absurd (n ((has_key_iff cluster_scoped_kinds m.kind).0 k))
  | inr k ↦ elim (Bool-cases (m.metadata.namespace == "")) [
    | inl f ↦ absurd (e ((eq_iff m.metadata.namespace "").0 f))
    | inr f ↦ rw (k, f) refl
  ]
]

free_namespace : (m : RawManifest) → Plain m → has_slash (manifest_namespace m) ≡ false
unfolding ns_of has_slash
free_namespace m (k, n) = elim (Bool-cases (has_key cluster_scoped_kinds m.kind)) [
  | inl e ↦ rw e refl
  | inr e ↦ elim (Bool-cases (m.metadata.namespace == "")) [
    | inl f ↦ rw (e, f) refl
    | inr f ↦ rw (e, f) n
  ]
]

uid_of_neq : (kind ns name : String) → uid_of kind ns name ≢ ""
unfolding uid_of strip_prefix
uid_of_neq kind ns name h =
    let rest : String = kind ++ "/" ++ ns ++ "/" ++ name in
    let found : strip_prefix "uid:" ("uid:" ++ rest) ≡ some rest =
      strip_prefix-append "uid:" rest in
    let lost : strip_prefix "uid:" ("uid:" ++ rest) ≡ none = ap (strip_prefix "uid:") h in
    cc (found, lost)

-- A reference of the dependent's manifest is to the owner, and both stand in one namespace.
abbrev pub Refers : RawManifest → RawManifest → Type 0
Refers n m =
    (o : RawOwner) × (ns : String) × (o ∈ n.metadata.owner_references)
    × (o.kind ≡ m.kind)
    × (o.name ≡ m.metadata.name)
    × StandsIn n ns
    × StandsIn m ns

OwnedBy-Refers :
    (m n : RawManifest) (sel sel' : LabelSelector)
    → Plain m
    → Plain n
    → ((o : RawOwner) → o ∈ n.metadata.owner_references → has_slash o.kind ≡ false)
    → OwnedBy (object_from m sel) (object_from n sel')
    → Refers n m
unfolding object_from
OwnedBy-Refers m n sel sel' p q f (w, k, _, e) =
    let (o, j, s) =
      (∈-map (owner_ref_of (manifest_namespace n)) w n.metadata.owner_references).0 k in
    let same : uid_of o.kind (manifest_namespace n) o.name
        ≡ uid_of m.kind (manifest_namespace m) m.metadata.name =
      ap (λ (x : OwnerRef). x.uid) s ∙ e in
    let (a, b, c) =
      uid_of_unique o.kind (manifest_namespace n) o.name m.kind (manifest_namespace m)
        m.metadata.name (f o j, free_namespace n q) (p.0, free_namespace m p) same in
    (
      o,
      manifest_namespace m,
      j,
      a,
      c,
      subst (StandsIn n) b (manifest_namespace-StandsIn n),
      manifest_namespace-StandsIn m,
    )

Refers-OwnedBy :
    (m n : RawManifest) (sel sel' : LabelSelector)
    → Refers n m
    → OwnedBy (object_from m sel) (object_from n sel')
unfolding object_from
Refers-OwnedBy m n sel sel' (o, ns, j, a, c, v, w) =
    let nn = manifest_namespace n in
    let b : nn ≡ manifest_namespace m = sym (StandsIn-unique n ns v) ∙ StandsIn-unique m ns w in
    (
      owner_ref_of nn o,
      (∈-map (owner_ref_of nn) (owner_ref_of nn o) n.metadata.owner_references).1 (o, j, refl),
      uid_of_neq o.kind nn o.name,
      ap (λ x. uid_of x nn o.name) a
          ∙ ap (λ x. uid_of m.kind x o.name) b
          ∙ ap (λ x. uid_of m.kind (manifest_namespace m) x) c,
    )

-- Where the kinds and namespaces of two manifests and the kinds of their owner references have no
-- slash, the object of the one owns that of the other exactly if the other has an owner reference
-- of its kind and name and both stand in one namespace: none for a cluster-scoped kind, the given
-- one, or the default one.
pub loaded_owner_iff :
    (m n : RawManifest) (sel sel' : LabelSelector)
    → Plain m
    → Plain n
    → ((o : RawOwner) → o ∈ n.metadata.owner_references → has_slash o.kind ≡ false)
    → (is_owned_by (object_from m sel) (object_from n sel') ≡ true) ↔ Refers n m
loaded_owner_iff m n sel sel' p q f =
    let owned = is_owned_by_iff (object_from m sel) (object_from n sel') in
    (
      λ h. OwnedBy-Refers m n sel sel' p q f (owned.0 h),
      λ r. owned.1 (Refers-OwnedBy m n sel sel' r),
    )
