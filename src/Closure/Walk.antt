-- ===== src/Closure/Walk.antt =====
-- closure/closure.go: the loop of `Closure` as an instance of the shared walk.
use krsm.Prelude.{
  ℕ, zero, suc, Option, none, some, List, [], ◌∷◌, ◌++◌, map, ◌≡◌, refl, inl, inr, has_key,
  Bool-cases, ap, ◌∙◌,
}
use krsm.Walk.{walk}
use krsm.Model.{Ref, Action, key}
use krsm.State.{State}
use krsm.Closure.{Affected, expand, note, closure_loop, sorted_refs, seeds, closure, sort_affected}

-- What the visited resources, the last one first, leave in `affected`.
unfoldable pub affected_by : State → List Ref → Affected
affected_by s [] = []
affected_by s (r ∷ rs) = note s r (affected_by s rs)

abbrev map_affected : State → Option (List Ref) → Option Affected
map_affected s none = none
map_affected s (some seen) = some (affected_by s seen)

closure_loop-eq-walk :
    (s : State) (a : Action) (fuel : ℕ) (queue seen : List Ref)
    → closure_loop s a fuel queue (map key seen) (affected_by s seen)
      ≡ map_affected s (walk key (expand s a) fuel queue seen)
unfolding closure_loop walk affected_by
closure_loop-eq-walk s a fuel [] seen = refl
closure_loop-eq-walk s a zero (cur ∷ queue) seen =
    elim (Bool-cases (has_key (map key seen) (key cur))) [
      | inl e ↦ rw (e, closure_loop, walk) (closure_loop-eq-walk s a zero queue seen)
      | inr e ↦ rw (e, closure_loop, walk)
    ]
closure_loop-eq-walk s a (suc fuel) (cur ∷ queue) seen =
    elim (Bool-cases (has_key (map key seen) (key cur))) [
      | inl e ↦ rw (e, closure_loop, walk) (closure_loop-eq-walk s a (suc fuel) queue seen)
      | inr e ↦
          rw (e, closure_loop, walk)
            (closure_loop-eq-walk s a fuel (queue ++ expand s a cur) (cur ∷ seen))
    ]

closure-eq-walk :
    (fuel : ℕ) (s : State) (a : Action)
    → closure fuel s a ≡ sort_affected (map_affected s (walk key (expand s a) fuel (seeds s a) []))
unfolding closure affected_by
closure-eq-walk fuel s a = ap sort_affected (closure_loop-eq-walk s a fuel (seeds s a) [])

-- A closure that is returned comes from a walk that ended.
pub closure-from_walk :
    (fuel : ℕ) (s : State) (a : Action) (c : List Ref)
    → closure fuel s a ≡ some c
    → (out : List Ref) × (walk key (expand s a) fuel (seeds s a) [] ≡ some out)
      × (c ≡ sorted_refs (affected_by s out))
closure-from_walk fuel s a c h = go (walk key (expand s a) fuel (seeds s a) []) refl
  where
    go :
        (w : Option (List Ref))
        → walk key (expand s a) fuel (seeds s a) [] ≡ w
        → (out : List Ref) × (walk key (expand s a) fuel (seeds s a) [] ≡ some out)
          × (c ≡ sorted_refs (affected_by s out))
    go none e = absurd (cc (closure-eq-walk fuel s a))
    go (some out) e = (out, e, cc (closure-eq-walk fuel s a))

pub closure-of_walk :
    (fuel : ℕ) (s : State) (a : Action) (out : List Ref)
    → walk key (expand s a) fuel (seeds s a) [] ≡ some out
    → closure fuel s a ≡ some (sorted_refs (affected_by s out))
closure-of_walk fuel s a out e =
    closure-eq-walk fuel s a ∙ ap (λ x. sort_affected (map_affected s x)) e
