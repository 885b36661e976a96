-- ===== src/Tests/Mutations.antt =====
-- Mutations with payloads, and selectors that differ.
use krsm.Prelude.{String, some, true, false, [], ◌∷◌, ◌≡◌, refl, inl, inr, ◌↔◌, ◌∈◌, ne}
use krsm.Selector.{
  Labels, LabelSelector, SelectorRequirement, equal, matches, entries_agree, label_of,
}
use krsm.Selector.Matching.{Satisfies, matches_iff}
use krsm.Selector.Equal.{IsMap, NoEmptyValue, equal_sound, equal_misses_key, empty_value}
use krsm.Model.{Ref, Object, Action, update, patch}
use krsm.Model.Clause.{no_selector}
use krsm.Classify.{has, classify, mutate_selector, disruptive}
use krsm.Classify.Meaning.{IsMutation, Stands, classify_iff}
use krsm.Classify.Missed.{widening_missed, empty_selector, blank}
use krsm.State.{selector_binds}
use krsm.Closure.{external_effects, external_ref}
use krsm.Closure.External.{Dropped, external_effects_iff}
use krsm.Tests.Cluster.{shop, app_web, select_web, deployment, state, delete_web}

-- A Deployment whose protecting finalizer is dropped.
abbrev guarded : Object
guarded = record deployment { finalizers = "krsm.io/protect" ∷ [] }

abbrev unguard : Action
unguard = record {
  verb = patch;
  target = deployment.ref;
  cascade = false;
  old = some guarded;
  new = some deployment;
}

abbrev external : Ref
external = external_ref unguard "krsm.io/protect"

external_effects_iff_example : (external ∈ external_effects state unguard) ↔ (
    ((t : Object) × (state.get deployment.ref ≡ some t))
    × IsMutation patch
    × ((f : String) × Dropped unguard f × (external ≡ external_ref unguard f)))
external_effects_iff_example = external_effects_iff state unguard external

classify_iff_example : (has (classify delete_web) disruptive ≡ true) ↔ Stands delete_web disruptive
classify_iff_example = classify_iff delete_web disruptive

matches_iff_example : (matches select_web app_web ≡ true) ↔ (
    ((k v : String) → (k, v) ∈ app_web → label_of k app_web ≡ v)
    × ((r : SelectorRequirement) → r ∈ [] → Satisfies app_web r))
matches_iff_example = matches_iff select_web app_web

app_web-NoEmptyValue : NoEmptyValue app_web
app_web-NoEmptyValue k v (inl e) h = ne "web" "" refl (cc)
app_web-NoEmptyValue k v (inr no_more) h = absurd no_more

app_web-IsMap : IsMap app_web
app_web-IsMap = (λ m. absurd m, tt)

equal_sound_example : matches select_web app_web ≡ matches select_web app_web
unfolding equal entries_agree
equal_sound_example =
    equal_sound select_web select_web app_web app_web-IsMap app_web-IsMap app_web-NoEmptyValue refl

equal_misses_key_example :
    (equal (empty_value "tier") (empty_value "zone") ≡ true)
    × (matches (empty_value "tier") (("tier", "db") ∷ []) ≡ false)
    × (matches (empty_value "zone") (("tier", "db") ∷ []) ≡ true)
equal_misses_key_example =
    equal_misses_key "tier" "zone" "db" (ne "tier" "zone" refl) (ne "db" "" refl)

abbrev policy : LabelSelector → Object
policy s = record {
  ref = shop "NetworkPolicy" "deny" "n1";
  labels = [];
  selector = s;
  owners = [];
  cross_refs = [];
  finalizers = [];
}

abbrev widen : Action
widen = record {
  verb = update;
  target = shop "NetworkPolicy" "deny" "n1";
  cascade = false;
  old = some (policy no_selector);
  new = some (policy empty_selector);
}

widening_missed_example :
    (has (classify widen) mutate_selector ≡ false)
    × (selector_binds "NetworkPolicy" no_selector app_web ≡ false)
    × (selector_binds "NetworkPolicy" empty_selector app_web ≡ true)
widening_missed_example =
    widening_missed widen (policy no_selector) (policy empty_selector) "NetworkPolicy" app_web refl
      refl refl refl (ne "NetworkPolicy" "Service" refl)

abbrev labelled : Labels → Object
labelled ls = record deployment { labels = ls }

abbrev relabel : Action
relabel = record {
  verb = update;
  target = deployment.ref;
  cascade = false;
  old = some (labelled (blank "tier"));
  new = some (labelled (blank "zone"));
}
