-- ===== src/Safe.antt =====
-- closure/safe.go: whether the closure of an action stays in the authorised scope. The resolver's
-- memo of owned subtrees is passed from call to call; `none` means that a loop ran out of fuel.
pub mod Memo
pub mod Roots
pub mod Names
pub mod Widening
pub mod Judgement
pub mod Tells
pub mod Matching
pub mod Covers
pub mod Subtree
use krsm.Prelude.{
  ℕ, zero, suc, String, Bool, true, false, not, ◌&&◌, ◌||◌, Option, none, some, List, [], ◌∷◌, ◌++◌,
  ◌==◌, has_key, lookup, insert, if◌then◌else◌,
}
use krsm.Selector.{Labels, LabelSelector, is_empty, entries, matches}
use krsm.Model.{Ref, Object, Action, Decision, Verdict, allow, warn, block, key, human}
use krsm.Model.Clause.{
  ScopeDim, ScopeClause, dim_resource, dim_selector, dim_namespace, dim_ownership,
}
use krsm.State.{State}
use krsm.Closure.{closure, external_effects, sort_refs}
use krsm.Glob.{glob_match}

-- `stateResolver.subtrees`: for the key of a root, the keys of its subtree.
abbrev pub Memo : Type 0
Memo = List (String × List String)

-- A computation that reads and extends the memo.
abbrev pub Resolved : Type 0 → Type 0
Resolved A = Memo → Option (A × Memo)

abbrev pub pure : {A : Type 0} → A → Resolved A
pure a memo = some (a, memo)

infixl 5 ◌>>=◌
abbrev pub ◌>>=◌ : {A B : Type 0} → Resolved A → (A → Resolved B) → Resolved B
◌>>=◌ m f memo = elim (m memo) [ none ↦ none | some (a, memo') ↦ f a memo' ]

-- `stateResolver.labels`
unfoldable pub labels : State → Ref → Option Labels
labels s r = elim (s.get r) [ none ↦ none | some o ↦ some o.labels ]

-- The root as the state holds it, or as it was given.
unfoldable pub start_of : State → Ref → Ref
start_of s root = elim (s.get root) [ none ↦ root | some o ↦ o.ref ]

unfoldable pub subtree_loop : State → ℕ → List Ref → List String → Option (List String)
subtree_loop s fuel [] members = some members
subtree_loop s zero (cur ∷ queue) members = elim (has_key members (key cur)) [
  | true ↦ subtree_loop s zero queue members
  | false ↦ none
]
subtree_loop s (suc fuel) (cur ∷ queue) members = elim (has_key members (key cur)) [
  | true ↦ subtree_loop s (suc fuel) queue members
  | false ↦ subtree_loop s fuel (queue ++ s.owned_children cur) (key cur ∷ members)
]

-- The walk of `ownedSubtree`, with the key of the given root added to the members.
unfoldable pub walk_subtree : ℕ → State → Ref → Option (List String)
unfolding subtree_loop start_of
walk_subtree fuel s root = elim (subtree_loop s fuel (start_of s root ∷ []) []) [
  | none ↦ none
  | some members ↦ some (key root ∷ members)
]

unfoldable pub owned_subtree : ℕ → State → Ref → Resolved (List String)
unfolding lookup walk_subtree
owned_subtree fuel s root memo = elim (lookup (key root) memo) [
  | some members ↦ some (members, memo)
  | none ↦ elim (walk_subtree fuel s root) [
    | none ↦ none
    | some members ↦ some (members, insert (key root) members memo)
  ]
]

unfoldable pub dim_of : ScopeClause → ScopeDim
dim_of sc = if sc.dim == "" then dim_resource else sc.dim

unfoldable pub gates : ScopeClause → Ref → Bool
gates sc r =
    if not (sc.gvk.kind == "") && not (sc.gvk.kind == r.gvk.kind)
    then false
    else if not (sc.gvk.group == "") && not (sc.gvk.group == r.gvk.group)
    then false
    else if not (sc.gvk.version == "") && not (sc.gvk.version == r.gvk.version)
    then false
    else sc.namespace == r.namespace

unfoldable pub match_selector_clause : ScopeClause → Ref → (Ref → Option Labels) → Bool
unfolding matches
match_selector_clause sc r labels_of =
    let found : Bool = elim (labels_of r) [ none ↦ false | some ls ↦ matches sc.selector ls ] in
    if is_empty (entries sc.selector.match_labels) && is_empty sc.selector.match_expressions
    then false
    else found

-- One round of the loop in `matchScope`: whether the clause covers the resource.
unfoldable pub match_clause : ℕ → State → Ref → ScopeClause → Resolved Bool
unfolding owned_subtree dim_of gates match_selector_clause labels glob_match has_key
match_clause fuel s r sc =
    if dim_of sc == dim_resource
    then pure (gates sc r && glob_match sc.name r.name)
    else if dim_of sc == dim_selector
    then pure (gates sc r && match_selector_clause sc r (labels s))
    else if dim_of sc == dim_namespace
    then pure (gates sc r)
    else if dim_of sc == dim_ownership
    then (owned_subtree fuel s sc.root >>= λ members. pure (has_key members (key r)))
    else pure false

unfoldable pub match_scope : ℕ → State → Ref → List ScopeClause → Resolved Bool
unfolding match_clause
match_scope fuel s r [] = pure false
match_scope fuel s r (sc ∷ scope) = do
  ok ← match_clause fuel s r sc
  let rest = match_scope fuel s r scope
  if ok then pure true else rest

-- The loop of `Safe` over the closure: the members that no clause covers.
unfoldable pub escapes : ℕ → State → List ScopeClause → List Ref → Resolved (List Ref)
unfolding match_scope
escapes fuel s scope [] = pure []
escapes fuel s scope (r ∷ rs) = do
  ok ← match_scope fuel s r scope
  rest ← escapes fuel s scope rs
  pure (if ok then rest else r ∷ rest)

abbrev pub unresolved : Decision
unresolved = record {
  verdict = block;
  reason = "fail-closed: action target not found in tracked state; closure cannot be computed";
  closure = [];
  escaping = [];
  external = [];
}

-- The verdict and the reason for what escapes and what crosses the boundary of the cluster.
unfoldable pub judge : List Ref → List Ref → Verdict × String
judge [] [] = (allow, "")
judge [] (e ∷ es) = (warn, "closure crosses the cluster boundary (external effect)")
judge (r ∷ rs) external = (block, "affected-resource closure escapes task scope")

unfoldable pub decide_closure : ℕ → State → Action → List ScopeClause → List Ref → Option Decision
unfolding judge escapes sort_refs external_effects
decide_closure fuel s a scope [] = some unresolved
decide_closure fuel s a scope (r ∷ rs) = elim (escapes fuel s scope (r ∷ rs) []) [
  | none ↦ none
  | some (escaped, memo) ↦
      let escaping = sort_refs escaped in
      let external = external_effects s a in
      let judged = judge escaping external in
      some (record {
        verdict = judged.0;
        reason = judged.1;
        closure = r ∷ rs;
        escaping = escaping;
        external = external;
      })
]

unfoldable pub safe : ℕ → State → Action → List ScopeClause → Option Decision
unfolding closure decide_closure
safe fuel s a scope = elim (closure fuel s a) [
  | none ↦ none
  | some c ↦ decide_closure fuel s a scope c
]
