-- ===== src/State.antt =====
-- closure/state.go: the `State` interface as a record of its methods, and the state that scans a
-- list of objects. The maps of `scanState` hold pointers into `objs`; nothing writes through them,
-- so the model keeps the objects themselves.
pub mod Selection
pub mod Binding
pub mod Lookup
pub mod Laws
use krsm.Prelude.{
  String, Bool, true, false, not, ◌&&◌, ◌||◌, Option, none, some, List, [], ◌∷◌, map, ◌==◌, length,
  any, filter, has_key, lookup, insert, if◌then◌else◌,
}
use krsm.Selector.{Labels, LabelSelector, is_nil, is_empty, entries, matches}
use krsm.Classify.{selector_kinds}
use krsm.Model.{
  Ref, Object, OwnerRef, CrossRef, RefKind, ref_scale_target, ref_volume, ref_env_from, ref_env,
  ref_image_pull_secret, key, human,
}

pub record State : Type 0 where
  pub get : Ref → Option Object
  pub owned_children : Ref → List Ref
  pub namespace_contents : String → List Ref
  pub pods_selected_by : Ref → List Ref
  pub pods_matching : String → LabelSelector → String → List Ref
  pub selectors_targeting : Ref → List Ref
  pub selectors_matching_labels : String → Labels → List Ref
  pub consumers : Ref → List Ref
  pub controllers_targeting : Ref → List Ref

pub record ScanState : Type 0 where
  pub objs : List Object
  pub by_uid : List (String × Object)
  pub by_human : List (String × Object)

-- One round of the loop in `NewScanState`: the object is written over an earlier one of its key.
unfoldable pub track : ScanState → Object → ScanState
track s o = record s {
  by_uid = if not (o.ref.uid == "") then insert o.ref.uid o s.by_uid else s.by_uid;
  by_human = insert (human o.ref) o s.by_human;
}

unfoldable pub track_all : ScanState → List Object → ScanState
unfolding track
track_all s [] = s
track_all s (o ∷ os) = track_all (track s o) os

unfoldable pub new_scan_state : List Object → ScanState
unfolding track_all
new_scan_state objs = track_all (record { objs = objs; by_uid = []; by_human = [] }) objs

-- The references of the objects that pass a test, in the order of the scan.
unfoldable pub scan : (Object → Bool) → List Object → List Ref
unfolding filter
scan test objs = map (λ o. o.ref) (filter test objs)

-- The result of a method that first looks its argument up, and is nil where that fails.
abbrev pub for_tracked : Option Object → (Object → List Ref) → List Ref
for_tracked none f = []
for_tracked (some o) f = f o

unfoldable pub selector_binds : String → LabelSelector → Labels → Bool
unfolding is_nil
selector_binds owner_kind selector labels =
    if is_nil selector
    then false
    else if is_empty (entries selector.match_labels) && is_empty selector.match_expressions
    then not (owner_kind == "Service")
    else matches selector labels

unfoldable pub cross_ref_matches : Ref → Ref → Bool
cross_ref_matches refd target =
    if not (refd.uid == "") && not (target.uid == "")
    then refd.uid == target.uid
    else (refd.gvk.kind == target.gvk.kind)
      && (refd.namespace == target.namespace)
      && (refd.name == target.name)

abbrev pub is_scale_target : RefKind → Bool
is_scale_target ref_scale_target = true
is_scale_target _ = false

-- The test of `OwnedChildren`: an owner entry carries the uid of the owner.
unfoldable pub is_owned_by : Object → Object → Bool
unfolding any
is_owned_by owner o = any (λ ow. not (ow.uid == "") && (ow.uid == owner.ref.uid)) o.owners

module _ (s : ScanState) where
  unfoldable pub lookup_ref : Ref → Option Object
  lookup_ref r =
      let by_name = lookup (human r) s.by_human in
      if not (r.uid == "")
      then elim (lookup r.uid s.by_uid) [ none ↦ by_name | some o ↦ some o ]
      else by_name

  unfoldable pub owned_children : Ref → List Ref
  unfolding lookup_ref is_owned_by scan
  owned_children r = for_tracked (lookup_ref r) (λ owner. scan (is_owned_by owner) s.objs)

  unfoldable pub namespace_contents : String → List Ref
  unfolding scan
  namespace_contents ns =
      scan (λ o. (o.ref.namespace == ns) && not (o.ref.gvk.kind == "Namespace")) s.objs

  unfoldable pub pods_matching : String → LabelSelector → String → List Ref
  unfolding scan selector_binds
  pods_matching ns selector owner_kind =
      scan
        (λ o.
          (o.ref.gvk.kind == "Pod")
          && (o.ref.namespace == ns)
          && selector_binds owner_kind selector o.labels)
        s.objs

  unfoldable pub pods_selected_by : Ref → List Ref
  unfolding lookup_ref pods_matching
  pods_selected_by r =
      for_tracked (lookup_ref r)
        (λ owner. pods_matching owner.ref.namespace owner.selector owner.ref.gvk.kind)

  unfoldable pub selectors_matching_labels : String → Labels → List Ref
  unfolding scan selector_binds has_key
  selectors_matching_labels ns labels =
      scan
        (λ o.
          has_key selector_kinds o.ref.gvk.kind
          && (o.ref.namespace == ns)
          && selector_binds o.ref.gvk.kind o.selector labels)
        s.objs

  unfoldable pub selectors_targeting : Ref → List Ref
  unfolding lookup_ref selectors_matching_labels
  selectors_targeting pod =
      for_tracked (lookup_ref pod) (λ p. selectors_matching_labels pod.namespace p.labels)

  unfoldable pub consumers : Ref → List Ref
  unfolding lookup_ref scan cross_ref_matches any
  consumers target = for_tracked (lookup_ref target) (λ tgt.
      scan
        (λ o.
          any (λ cr. not (is_scale_target cr.kind) && cross_ref_matches cr.ref tgt.ref)
            o.cross_refs)
        s.objs)

  unfoldable pub controllers_targeting : Ref → List Ref
  unfolding lookup_ref scan cross_ref_matches any
  controllers_targeting r = for_tracked (lookup_ref r) (λ tgt.
      scan
        (λ o. any (λ cr. is_scale_target cr.kind && cross_ref_matches cr.ref tgt.ref) o.cross_refs)
        s.objs)

-- `NewScanState`: the scan as a `State`.
abbrev pub scan_state : ScanState → State
scan_state s = record {
  get = lookup_ref s;
  owned_children = owned_children s;
  namespace_contents = namespace_contents s;
  pods_selected_by = pods_selected_by s;
  pods_matching = pods_matching s;
  selectors_targeting = selectors_targeting s;
  selectors_matching_labels = selectors_matching_labels s;
  consumers = consumers s;
  controllers_targeting = controllers_targeting s;
}
