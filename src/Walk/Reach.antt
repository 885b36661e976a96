-- ===== src/Walk/Reach.antt =====
-- The queue loop: reachability from the queue, as a relation.
use krsm.Prelude.{
  ℕ, String, some, List, [], ◌∷◌, ◌++◌, map, ◌≡◌, refl, ◌⊎◌, inl, inr, arith, ◌∈◌, ∈-append, ∈-map,
}
use krsm.Walk.{walk}
use krsm.Walk.Rule.{walk_rule}

pub data Reach {A : Type 0} (expand : A → List A) (roots : List A) : A → Type 0 where
  root : {x : A} → x ∈ roots → Reach expand roots x
  step : {x y : A} → Reach expand roots x → y ∈ expand x → Reach expand roots y

module _ {A : Type 0} (key : A → String) (expand : A → List A) (roots : List A) where
  abbrev AllReach : List A → List A → Type 0
  AllReach queue seen = (x : A) → (x ∈ queue) ⊎ (x ∈ seen) → Reach expand roots x

  pub walk_sound :
      (fuel : ℕ) (out : List A)
      → walk key expand fuel roots [] ≡ some out
      → (x : A) → x ∈ out
      → Reach expand roots x
  walk_sound fuel out h x m =
      walk_rule key expand AllReach (λ c q s k r y. λ w. r y (skip c y q s w)) take fuel roots []
        out start h x (inr m)
    where
      skip : (c y : A) (q s : List A) → (y ∈ q) ⊎ (y ∈ s) → (y ∈ c ∷ q) ⊎ (y ∈ s)
      skip c y q s w = ground arith

      take :
          (c : A) (q s : List A)
          → ¬ (key c ∈ map key s)
          → AllReach (c ∷ q) s
          → AllReach (q ++ expand c) (c ∷ s)
      take c q s new r y (inr (inl e)) = rw e (r c (inl (inl refl)))
      take c q s new r y (inr (inr w)) = r y (inr w)
      take c q s new r y (inl w) = elim ((∈-append y q (expand c)).0 w) [
        | inl old ↦ r y (inl (inr old))
        | inr next ↦ step (r c (inl (inl refl))) next
      ]

      start : AllReach roots []
      start y (inl w) = root w
      start y (inr w) = absurd w

  -- The key of `x` is waiting in the queue or visited.
  abbrev Known : List A → List A → A → Type 0
  Known queue seen x = (key x ∈ map key queue) ⊎ (key x ∈ map key seen)

  record Closed (queue seen : List A) : Type 0 where
    begun : (x : A) → x ∈ roots → Known queue seen x
    onward : (x y : A) → x ∈ seen → y ∈ expand x → Known queue seen y

  Known-take : (c x : A) (q s : List A) → Known (c ∷ q) s x → Known (q ++ expand c) (c ∷ s) x
  Known-take c x q s (inr k) = inr (inr k)
  Known-take c x q s (inl (inl k)) = inr (inl k)
  Known-take c x q s (inl (inr k)) =
      let (y, m, e) = (∈-map key (key x) q).0 k in
      inl ((∈-map key (key x) (q ++ expand c)).1 (y, (∈-append y q (expand c)).1 (inl m), e))

  Known-skip : (c x : A) (q s : List A) → key c ∈ map key s → Known (c ∷ q) s x → Known q s x
  Known-skip c x q s seen (inr k) = inr k
  Known-skip c x q s seen (inl (inl k)) = inr (rw k seen)
  Known-skip c x q s seen (inl (inr k)) = inl k

  Closed-take : (c : A) (q s : List A) → Closed (c ∷ q) s → Closed (q ++ expand c) (c ∷ s)
  Closed-take c q s h = record { begun = λ x m. Known-take c x q s (h.begun x m); onward = next }
    where
      next : (x y : A) → x ∈ c ∷ s → y ∈ expand x → Known (q ++ expand c) (c ∷ s) y
      next x y (inr m) n = Known-take c y q s (h.onward x y m n)
      next x y (inl e) n =
          let n' : y ∈ expand c = rw e at n in
          inl
            ((∈-map key (key y) (q ++ expand c)).1 (y, (∈-append y q (expand c)).1 (inr n'), refl))

  walk-Closed : (fuel : ℕ) (out : List A) → walk key expand fuel roots [] ≡ some out → Closed [] out
  walk-Closed fuel out h =
      walk_rule key expand Closed
        (λ c q s seen k. record {
          begun = λ x m. Known-skip c x q s seen (k.begun x m);
          onward = λ x y m n. Known-skip c y q s seen (k.onward x y m n);
        })
        (λ c q s new k. Closed-take c q s k) fuel roots [] out
        (record {
          begun = λ x m. inl ((∈-map key (key x) roots).1 (x, m, refl));
          onward = λ x y m n. absurd m;
        })
        h

  -- A key stands for one element, among those that can be reached.
  abbrev pub KeysIdentify : Type 0
  KeysIdentify = (x y : A) → Reach expand roots x → Reach expand roots y → key x ≡ key y → x ≡ y

  -- Where a key stands for one element, nothing reachable is missed.
  pub walk_complete :
      KeysIdentify
      → (fuel : ℕ) (out : List A) → walk key expand fuel roots [] ≡ some out
      → (x : A) → Reach expand roots x
      → x ∈ out
  walk_complete inj fuel out h = go
    where
      closed : Closed [] out
      closed = walk-Closed fuel out h

      found : (x : A) → Reach expand roots x → Known [] out x → x ∈ out
      found x r (inl k) = absurd k
      found x r (inr k) =
          let (y, m, e) = (∈-map key (key x) out).0 k in
          rw (← inj y x (walk_sound fuel out h y m) r e) m

      go : (x : A) → Reach expand roots x → x ∈ out
      go x (root m) = found x (root m) (closed.begun x m)
      go x (step {x = p} r n) = found x (step r n) (closed.onward p x (go p r) n)
