-- ===== src/Walk/Rule.antt =====
-- The queue loop: the rule of invariants.
use krsm.Prelude.{
  ℕ, zero, suc, String, some, List, [], ◌∷◌, ◌++◌, map, ◌≡◌, inl, inr, has_key, has_key_iff, ◌∈◌,
  Bool-cases,
}
use krsm.Walk.{walk}

module _ {A : Type 0} (key : A → String) (expand : A → List A) (P : List A → List A → Type 0) where
  abbrev pub Skips : Type 0
  Skips =
      (cur : A) (queue seen : List A) → key cur ∈ map key seen → P (cur ∷ queue) seen → P queue seen

  abbrev pub Takes : Type 0
  Takes =
      (cur : A) (queue seen : List A)
      → ¬ (key cur ∈ map key seen)
      → P (cur ∷ queue) seen
      → P (queue ++ expand cur) (cur ∷ seen)

  pub walk_rule :
      Skips
      → Takes
      → (fuel : ℕ) (queue seen out : List A) → P queue seen
      → walk key expand fuel queue seen ≡ some out
      → P [] out
  unfolding walk
  walk_rule skip take fuel [] seen out p h = subst_P (cc)
    where
      subst_P : seen ≡ out → P [] out
      subst_P e = rw (← e) p
  walk_rule skip take zero (cur ∷ queue) seen out p h =
      elim (Bool-cases (has_key (map key seen) (key cur))) [
        | inl e ↦
            walk_rule skip take zero queue seen out
              (skip cur queue seen ((has_key_iff (map key seen) (key cur)).0 e) p)
              (rw (e, walk) at h)
        | inr e ↦ absurd (cc (rw (e, walk) at h))
      ]
  walk_rule skip take (suc fuel) (cur ∷ queue) seen out p h =
      elim (Bool-cases (has_key (map key seen) (key cur))) [
        | inl e ↦
            walk_rule skip take (suc fuel) queue seen out
              (skip cur queue seen ((has_key_iff (map key seen) (key cur)).0 e) p)
              (rw (e, walk) at h)
        | inr e ↦
            walk_rule skip take fuel (queue ++ expand cur) (cur ∷ seen) out
              (take cur queue seen (λ m. cc (e, (has_key_iff (map key seen) (key cur)).1 m)) p)
              (rw (e, walk) at h)
      ]
