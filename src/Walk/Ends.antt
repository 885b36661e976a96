-- ===== src/Walk/Ends.antt =====
-- The queue loop: its fuel.
use krsm.Prelude.{
  ℕ, zero, suc, ◌+◌, ◌≤◌, String, some, List, [], ◌∷◌, ◌++◌, map, ◌≡◌, refl, inl, inr, arith,
  has_key, has_key_iff, ◌∈◌, ∈-append, Distinct, Distinct-length-le, Bool-cases, length, length-map,
}
use krsm.Walk.{walk}
use krsm.Walk.Rule.{walk_rule}

module _ {A : Type 0} (key : A → String) (expand : A → List A) (universe : List String) where
  -- Every element that is queued has its key in the universe.
  abbrev pub Inside : List A → Type 0
  Inside xs = (x : A) → x ∈ xs → key x ∈ universe

  record Bounded (fuel : ℕ) (queue seen : List A) : Type 0 where
    queued : Inside queue
    visited : (k : String) → k ∈ map key seen → k ∈ universe
    fresh : Distinct (map key seen)
    fuelled : length universe ≤ fuel + length seen

  module _ (closed : (x : A) → Inside (expand x)) where
    Bounded-skip :
        (fuel : ℕ) (cur : A) (queue seen : List A)
        → Bounded fuel (cur ∷ queue) seen
        → Bounded fuel queue seen
    Bounded-skip fuel cur queue seen b = record {
      queued = λ x m. b.queued x (inr m);
      visited = b.visited;
      fresh = b.fresh;
      fuelled = b.fuelled;
    }

    Bounded-take :
        (fuel : ℕ) (cur : A) (queue seen : List A)
        → ¬ (key cur ∈ map key seen)
        → Bounded (suc fuel) (cur ∷ queue) seen
        → Bounded fuel (queue ++ expand cur) (cur ∷ seen)
    Bounded-take fuel cur queue seen new b = record {
      queued = λ x m. elim ((∈-append x queue (expand cur)).0 m) [
        | inl old ↦ b.queued x (inr old)
        | inr next ↦ closed cur x next
      ];
      visited = λ k m. elim m [ inl e ↦ rw e (b.queued cur (inl refl)) | inr m' ↦ b.visited k m' ];
      fresh = (new, b.fresh);
      fuelled = omega (arith, b.fuelled);
    }

    -- With the fuel spent, the visited keys are the whole universe.
    no_room :
        (cur : A) (queue seen : List A)
        → ¬ (key cur ∈ map key seen)
        → Bounded zero (cur ∷ queue) seen
        → ⊥
    no_room cur queue seen new b =
        let all_in = λ (k : String) (m : k ∈ key cur ∷ map key seen). inside k m in
        omega (
          arith,
          b.fuelled,
          length-map key seen,
          Distinct-length-le (key cur ∷ map key seen) universe (new, b.fresh) all_in,
        )
      where
        inside : (k : String) → k ∈ key cur ∷ map key seen → k ∈ universe
        inside k (inl e) = rw e (b.queued cur (inl refl))
        inside k (inr m) = b.visited k m

    walk_ends :
        (fuel : ℕ) (queue seen : List A)
        → Bounded fuel queue seen
        → (out : List A) × (walk key expand fuel queue seen ≡ some out)
    unfolding walk
    walk_ends fuel [] seen b = (seen, refl)
    walk_ends zero (cur ∷ queue) seen b = elim (Bool-cases (has_key (map key seen) (key cur))) [
      | inl e ↦ rw (e, walk) (walk_ends zero queue seen (Bounded-skip zero cur queue seen b))
      | inr e ↦
          absurd
            (no_room cur queue seen (λ m. cc (e, (has_key_iff (map key seen) (key cur)).1 m)) b)
    ]
    walk_ends (suc fuel) (cur ∷ queue) seen b =
        elim (Bool-cases (has_key (map key seen) (key cur))) [
          | inl e ↦
              rw (e, walk)
                (walk_ends (suc fuel) queue seen (Bounded-skip (suc fuel) cur queue seen b))
          | inr e ↦
              rw (e, walk)
                (walk_ends fuel (queue ++ expand cur) (cur ∷ seen) (
                  Bounded-take fuel cur queue seen
                    (λ m. cc (e, (has_key_iff (map key seen) (key cur)).1 m)) b))
        ]

    -- From an empty visited set, fuel for every key of the universe is enough.
    pub walk_total :
        (queue : List A)
        → Inside queue
        → (out : List A) × (walk key expand (length universe) queue [] ≡ some out)
    walk_total queue inside =
        walk_ends (length universe) queue []
          (record { queued = inside; visited = λ k m. absurd m; fresh = tt; fuelled = omega arith })

-- No key is visited twice.
pub walk-Distinct :
    {A : Type 0} (key : A → String) (expand : A → List A) (fuel : ℕ) (queue out : List A)
    → walk key expand fuel queue [] ≡ some out
    → Distinct (map key out)
walk-Distinct key expand fuel queue out h =
    walk_rule key expand (λ q s. Distinct (map key s)) (λ c q s m d. d) (λ c q s new d. (new, d))
      fuel queue [] out tt h
