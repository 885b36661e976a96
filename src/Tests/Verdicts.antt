-- ===== src/Tests/Verdicts.antt =====
-- Verdicts on the sample cluster, under derived and explicit scopes.
use krsm.Prelude.{
  Bool, true, some, none, List, [], ◌∷◌, ◌≡◌, refl, inl, inr, ◌≢◌, ◌↔◌, ◌∈◌, ne, arith, lookup,
  insert,
}
use krsm.Model.{Gvk, Ref, Action, Decision, delete, block, allow, key, human, no_ref}
use krsm.Model.Clause.{ScopeClause, resource_clause, ownership_clause}
use krsm.State.{new_scan_state, lookup_ref, owned_children}
use krsm.Closure.{closure, external_effects}
use krsm.Closure.Relation.{Affects, Identified}
use krsm.Closure.Keys.{are_distinct}
use krsm.Classify.{classify}
use krsm.Glob.{codes}
use krsm.Glob.Plain.{AllPlain}
use krsm.Safe.{safe, unresolved, match_scope, start_of, Memo}
use krsm.Safe.Covers.{Covered}
use krsm.Safe.Roots.{RootsAgree, single-RootsAgree, pair-RootsAgree}
use krsm.Safe.Matching.{match_scope_exact}
use krsm.Safe.Judgement.{Judges, safe-Judges, safe_fails_closed}
use krsm.Safe.Widening.{safe_monotone}
use krsm.Scope.{derive}
use krsm.Scope.Derived.{InTree, derived_scope_exact}
use krsm.Tests.Cluster.{
  shop, deployment, service, pod, state, tracked, delete_web, delete_service, over, with_tracked,
  web-Identified, service-Identified, web-found, service-found,
}

abbrev core : Gvk
core = record { group = ""; version = "v1"; kind = "Service" }

abbrev service_by_name : ScopeClause
service_by_name = resource_clause core "shop" "web"

-- The tree of the Deployment, and the Service beside it.
abbrev web_scope : List ScopeClause
web_scope = ownership_clause deployment.ref ∷ service_by_name ∷ []

rootless-Identified : Identified (start_of state no_ref ∷ tracked)
unfolding start_of lookup_ref new_scan_state lookup insert are_distinct key
rootless-Identified = with_tracked no_ref refl

web-start : Identified (start_of state deployment.ref ∷ tracked)
unfolding start_of lookup_ref new_scan_state lookup insert
web-start = web-Identified

service-start : Identified (start_of state service.ref ∷ tracked)
unfolding start_of lookup_ref new_scan_state lookup insert
service-start = service-Identified

web_roots : RootsAgree state tracked web_scope
unfolding ownership_clause resource_clause key
web_roots =
    pair-RootsAgree state tracked (ownership_clause deployment.ref) service_by_name
      (ne "uid:d1" "//" refl) web-start rootless-Identified

by_name_roots : RootsAgree state tracked (service_by_name ∷ [])
unfolding resource_clause
by_name_roots = single-RootsAgree state tracked service_by_name rootless-Identified

safe-Judges_example :
    (d : Decision) × (safe 6 state delete_web web_scope ≡ some d)
    × Judges state delete_web web_scope d
safe-Judges_example =
    safe-Judges state tracked delete_web web_scope
      (record { over = over; identified = web-Identified; agree = web_roots }) deployment web-found

abbrev ghost : Action
ghost = record {
  verb = delete;
  target = shop "Pod" "ghost" "g1";
  cascade = true;
  old = none;
  new = none;
}

ghost-missing : state.get ghost.target ≡ none
unfolding lookup_ref new_scan_state lookup insert human
ghost-missing = refl

safe_fails_closed_example : safe 6 state ghost web_scope ≡ some unresolved
safe_fails_closed_example = safe_fails_closed 6 state ghost web_scope ghost-missing

derived_scope_exact_example :
    (d : Decision) × (safe 6 state delete_web (derive deployment.ref).clauses ≡ some d)
    × ((d.verdict ≡ block)
        ↔ ((r : Ref) × Affects state delete_web r × (¬ InTree state deployment.ref r)))
derived_scope_exact_example =
    derived_scope_exact state tracked delete_web deployment over web-Identified web-found

match_scope_exact_example :
    (b : Bool) × (memo : Memo) × (match_scope 6 state pod.ref web_scope [] ≡ some (b, memo))
    × ((b ≡ true) ↔ Covered state web_scope pod.ref)
match_scope_exact_example = match_scope_exact state tracked over web_scope web_roots pod.ref

web-AllPlain : AllPlain (codes "web")
web-AllPlain c (inl e) = (λ h. omega arith, λ h. omega arith, λ h. omega arith, λ h. omega arith)
web-AllPlain c (inr (inl e)) =
    (λ h. omega arith, λ h. omega arith, λ h. omega arith, λ h. omega arith)
web-AllPlain c (inr (inr (inl e))) =
    (λ h. omega arith, λ h. omega arith, λ h. omega arith, λ h. omega arith)
web-AllPlain c (inr (inr (inr no_more))) = absurd no_more

abbrev small_scope : List ScopeClause
small_scope = ownership_clause service.ref ∷ []

abbrev large_scope : List ScopeClause
large_scope = ownership_clause service.ref ∷ service_by_name ∷ []

small_roots : RootsAgree state tracked small_scope
unfolding ownership_clause
small_roots = single-RootsAgree state tracked (ownership_clause service.ref) service-start

large_roots : RootsAgree state tracked large_scope
unfolding ownership_clause resource_clause key
large_roots =
    pair-RootsAgree state tracked (ownership_clause service.ref) service_by_name
      (ne "uid:s1" "//" refl) service-start rootless-Identified

abbrev allowed : Decision
allowed = record {
  verdict = allow;
  reason = "";
  closure = service.ref ∷ [];
  escaping = [];
  external = [];
}

allowed_run : safe 6 state delete_service small_scope ≡ some allowed
unfolding safe closure classify external_effects new_scan_state lookup insert key owned_children
    ownership_clause
allowed_run = refl

within : (c : ScopeClause) → c ∈ small_scope → c ∈ large_scope
within c (inl e) = inl e
within c (inr no_more) = absurd no_more

safe_monotone_example :
    (e : Decision) × (safe 6 state delete_service large_scope ≡ some e) × (e.verdict ≢ block)
safe_monotone_example =
    safe_monotone state tracked delete_service small_scope large_scope service
      (record { over = over; identified = service-Identified; agree = small_roots })
      (record { over = over; identified = service-Identified; agree = large_roots }) service-found
      within allowed allowed_run (λ h. cc)
