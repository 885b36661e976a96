-- ===== src/Cluster/Snapshot.antt =====
-- internal/cluster/build.go: `BuildObjects` and `buildOne`, object by object.
use krsm.Prelude.{
  String, List, [], ◌∷◌, ◌≡◌, sym, ap, ◌∙◌, ◌≢◌, inl, inr, subst, ◌==◌, Bool-cases, ne, ok, ◌>>=◌,
  Fields, >>=-eq-ok, ok_injective,
}
use krsm.Model.{Object}
use krsm.Cluster.{
  Unstructured, nested_string, nested_string_map, nested_string_slice, maps_at,
  selector_from_unstructured,
}
use krsm.Cluster.Strings.{TextAt, nested_string-TextAt}
use krsm.Cluster.Contents.{nested_string_map-LabelsAt, nested_string_slice-TextsAt, maps_at-MapsAt}
use krsm.Cluster.Selects.{Selects, selector_from_unstructured-Selects}
use krsm.Cluster.References.{NameUidIndex}
use krsm.Cluster.Build.{
  ScopeInfo, kind_name, gvk_of, object_of, build_one, build_loop, build_objects, new_name_uid_index,
}
use krsm.Cluster.Projection.{
  StandsFor, gvk_of-kind, gvk_of-Versions, resolve_namespace-Placed, owners_of-AreOwners,
  labels_of-OrEmpty, finalizers_of-OrEmpty,
}

module _ (api : Unstructured) (scope : ScopeInfo) where
  -- Object by object, in order.
  pub data Mirrors : List Fields → List Object → Type 0 where
    no_more : Mirrors [] []
    next :
        {o : Fields} {x : Object} {os : List Fields} {xs : List Object}
        → StandsFor api scope o x
        → Mirrors os xs
        → Mirrors (o ∷ os) (x ∷ xs)

  pub kind_name_ok :
      (o : Fields) (k n : String)
      → kind_name api o ≡ ok (k, n)
      → (k ≡ nested_string api o ("kind" ∷ []))
        × (k ≢ "")
        × (n ≡ nested_string api o ("metadata" ∷ "name" ∷ []))
        × (n ≢ "")
  unfolding kind_name
  kind_name_ok o k n h =
      let kind = nested_string api o ("kind" ∷ []) in
      let name = nested_string api o ("metadata" ∷ "name" ∷ []) in
      elim (Bool-cases (kind == "")) [
        | inl e ↦ absurd (cc (rw (kind_name, e) at h))
        | inr e ↦ elim (Bool-cases (name == "")) [
          | inl f ↦ absurd (cc (rw (kind_name, e, f) at h))
          | inr f ↦
              let same : (kind, name) ≡ (k, n) =
                ok_injective (kind, name) (k, n) (rw (kind_name, e, f) at h) in
              let sk : k ≡ kind = sym (ap (λ (p : String × String). p.0) same) in
              let sn : n ≡ name = sym (ap (λ (p : String × String). p.1) same) in
              (sk, λ z. ne kind "" e (sym sk ∙ z), sn, λ z. ne name "" f (sym sn ∙ z))
        ]
      ]

  build_one-StandsFor :
      (ix : NameUidIndex) (o : Fields) (x : Object)
      → build_one api scope ix o ≡ ok x
      → StandsFor api scope o x
  unfolding build_one
  build_one-StandsFor ix o x h =
      let ((k, n), e, f) =
        >>=-eq-ok (kind_name api o)
          (λ kn.
            selector_from_unstructured api kn.0 o >>= λ sel. ok (object_of api scope ix o kn.1 sel))
          x h in
      let (sel, e', f') =
        >>=-eq-ok (selector_from_unstructured api k o) (λ sel. ok (object_of api scope ix o n sel))
          x f in
      let (sk, nk, sn, nn) = kind_name_ok o k n e in
      let g : (gvk_of api o).kind ≡ k = gvk_of-kind api scope o ∙ sym sk in
      subst (StandsFor api scope o) (ok_injective (object_of api scope ix o n sel) x f') (record {
        kind = (
          subst (TextAt api o ("kind" ∷ [])) (sym (gvk_of-kind api scope o))
              (nested_string-TextAt api o ("kind" ∷ [])),
          λ z. nk (sym g ∙ z),
        );
        api_version = nested_string api o ("apiVersion" ∷ []);
        api_version_at = nested_string-TextAt api o ("apiVersion" ∷ []);
        group_version = gvk_of-Versions api scope o;
        name = (
          subst (TextAt api o ("metadata" ∷ "name" ∷ [])) (sym sn)
              (nested_string-TextAt api o ("metadata" ∷ "name" ∷ [])),
          nn,
        );
        namespace = resolve_namespace-Placed api scope o;
        uid = nested_string-TextAt api o ("metadata" ∷ "uid" ∷ []);
        labels_read = nested_string_map api o ("metadata" ∷ "labels" ∷ []);
        labels_at = nested_string_map-LabelsAt api o ("metadata" ∷ "labels" ∷ []);
        labels = labels_of-OrEmpty api scope o;
        selector =
            subst (λ p. Selects api o p sel) (sym g)
              (selector_from_unstructured-Selects api k o sel e');
        owners_read = maps_at api o ("metadata" ∷ "ownerReferences" ∷ []);
        owners_at = maps_at-MapsAt api o ("metadata" ∷ "ownerReferences" ∷ []);
        owners = owners_of-AreOwners api scope o;
        finalizers_read = nested_string_slice api o ("metadata" ∷ "finalizers" ∷ []);
        finalizers_at = nested_string_slice-TextsAt api o ("metadata" ∷ "finalizers" ∷ []);
        finalizers = finalizers_of-OrEmpty api scope o;
      })

  build_loop-Mirrors :
      (ix : NameUidIndex) (objs : List Fields) (out : List Object)
      → build_loop api scope ix objs ≡ ok out
      → Mirrors objs out
  unfolding build_loop
  build_loop-Mirrors ix [] out h = subst (Mirrors []) (ok_injective [] out h) no_more
  build_loop-Mirrors ix (o ∷ objs) out h =
      let (x, e, f) =
        >>=-eq-ok (build_one api scope ix o)
          (λ x. build_loop api scope ix objs >>= λ rest. ok (x ∷ rest)) out h in
      let (rest, e', f') = >>=-eq-ok (build_loop api scope ix objs) (λ rest. ok (x ∷ rest)) out f in
      subst (Mirrors (o ∷ objs)) (ok_injective (x ∷ rest) out f')
        (next (build_one-StandsFor ix o x e) (build_loop-Mirrors ix objs rest e'))

  -- A snapshot that `BuildObjects` builds mirrors the listed objects one by one. Each has the kind
  -- and the name, not empty, the group, version, uid, labels, owners and finalizers that it is
  -- listed with; the labels and requirements, in order and with known operators, of the selector
  -- at the path of its kind, nil where there is no map; and no namespace if its kind is known to
  -- be cluster-scoped, otherwise, also where the scope is unknown, the listed one, or default if
  -- that is empty.
  pub build_objects-Mirrors :
      (objs : List Fields) (out : List Object)
      → build_objects api scope objs ≡ ok out
      → Mirrors objs out
  unfolding build_objects
  build_objects-Mirrors objs out h =
      let (ix, _, f) =
        >>=-eq-ok (new_name_uid_index api scope objs) (λ ix. build_loop api scope ix objs) out h in
      build_loop-Mirrors ix objs out f
