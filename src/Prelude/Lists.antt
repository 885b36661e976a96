-- ===== src/Prelude/Lists.antt =====
-- Lists measured by native numbers, membership as a sum, and the loops `any`, `all` and `filter`.
use Prim.Native.Nat.{ℕ, suc, ◌+◌, ◌≤◌}
use mathlib.Core.Path.{◌≡◌, refl, sym, ap, ◌∙◌, subst}
use mathlib.Core.Logic.{◌≢◌, ◌↔◌, ◌⊎◌, inl, inr}
use mathlib.Core.Bool.{Bool, true, false, ◌&&◌, ◌||◌}
use mathlib.Core.List.{List, [], ◌∷◌, ◌++◌, map}
use native.Mathlib.Omega.{arith}
use krsm.Prelude.Tests.{if◌then◌else◌, Bool-cases}

module _ {ℓ} {A : Type ℓ} where
  abbrev pub length : List A → ℕ
  length [] = 0
  length (x ∷ xs) = suc (length xs)

  pub length-append : (xs ys : List A) → length (xs ++ ys) ≡ length xs + length ys
  length-append [] ys = omega arith
  length-append (x ∷ xs) ys = omega (arith, length-append xs ys)

  pub append_assoc : (xs ys zs : List A) → ((xs ++ ys) ++ zs) ≡ (xs ++ (ys ++ zs))
  append_assoc [] ys zs = refl
  append_assoc (x ∷ xs) ys zs = ap (λ l. x ∷ l) (append_assoc xs ys zs)

  pub append_nil : (xs : List A) → (xs ++ []) ≡ xs
  append_nil [] = refl
  append_nil (x ∷ xs) = ap (λ l. x ∷ l) (append_nil xs)

  unfoldable pub any : (A → Bool) → List A → Bool
  any p [] = false
  any p (x ∷ xs) = p x || any p xs

  unfoldable pub all : (A → Bool) → List A → Bool
  all p [] = true
  all p (x ∷ xs) = p x && all p xs

  unfoldable pub filter : (A → Bool) → List A → List A
  filter p [] = []
  filter p (x ∷ xs) = if p x then x ∷ filter p xs else filter p xs

module _ {A : Type 0} where
  infix 40 ◌∈◌
  abbrev pub ◌∈◌ : A → List A → Type 0
  q ∈ [] = ⊥
  q ∈ p ∷ s = (q ≡ p) ⊎ (q ∈ s)

  -- No element occurs twice.
  abbrev pub Distinct : List A → Type 0
  Distinct [] = Unit {0}
  Distinct (x ∷ xs) = (¬ (x ∈ xs)) × Distinct xs

  pub ∈-append : (q : A) (xs ys : List A) → (q ∈ xs ++ ys) ↔ ((q ∈ xs) ⊎ (q ∈ ys))
  ∈-append q [] ys = (inr, λ m. ground arith)
  ∈-append q (x ∷ xs) ys = ground (arith, ∈-append q xs ys)

  pub any_iff :
      (p : A → Bool) (xs : List A) → (any p xs ≡ true) ↔ ((x : A) × (x ∈ xs) × (p x ≡ true))
  unfolding any
  any_iff p [] = (λ h. absurd (cc), λ h. absurd h.1)
  any_iff p (x ∷ xs) = (
    λ h. elim (Bool-cases (p x)) [
      | inl e ↦ (x, inl refl, e)
      | inr e ↦ let (y, m, h') = (any_iff p xs).0 (rw e at h) in (y, inr m, h')
    ],
    λ (y, m, h). elim m [
      | inl e ↦ ground (arith, ap p e)
      | inr m' ↦ ground (arith, (any_iff p xs).1 (y, m', h))
    ],
  )

  pub all_iff : (p : A → Bool) (xs : List A) → (all p xs ≡ true) ↔ ((x : A) → x ∈ xs → p x ≡ true)
  unfolding all
  all_iff p [] = (λ h x m. absurd m, λ h. refl)
  all_iff p (x ∷ xs) = (
    λ h y m. elim m [
      | inl e ↦ ground (arith, ap p e)
      | inr m' ↦ (all_iff p xs).0 (ground arith) y m'
    ],
    λ h. ground (arith, h x (inl refl), (all_iff p xs).1 (λ y m. h y (inr m))),
  )

  pub ∈-filter :
      (p : A → Bool) (q : A) (xs : List A) → (q ∈ filter p xs) ↔ ((q ∈ xs) × (p q ≡ true))
  unfolding filter
  ∈-filter p q [] = (λ m. absurd m, λ m. m.0)
  ∈-filter p q (x ∷ xs) = elim (Bool-cases (p x)) [
    | inl e ↦ rw e (
      λ m. elim m [
        | inl h ↦ (inl h, ap p h ∙ e)
        | inr h ↦ let (a, b) = (∈-filter p q xs).0 h in (inr a, b)
      ],
      λ (m, h). elim m [ inl h' ↦ inl h' | inr m' ↦ inr ((∈-filter p q xs).1 (m', h)) ],
    )
    | inr e ↦ rw e (
      λ m. let (a, b) = (∈-filter p q xs).0 m in (inr a, b),
      λ (m, h). elim m [ inl h' ↦ absurd (cc (ap p h')) | inr m' ↦ (∈-filter p q xs).1 (m', h) ],
    )
  ]

  -- The list without the element at the given place.
  remove : (x : A) (xs : List A) → x ∈ xs → List A
  remove x [] m = absurd m
  remove x (y ∷ ys) (inl e) = ys
  remove x (y ∷ ys) (inr m) = y ∷ remove x ys m

  length-remove : (x : A) (xs : List A) (m : x ∈ xs) → suc (length (remove x xs m)) ≡ length xs
  unfolding remove
  length-remove x [] m = absurd m
  length-remove x (y ∷ ys) (inl e) = refl
  length-remove x (y ∷ ys) (inr m) = ap suc (length-remove x ys m)

  ∈-remove : (x y : A) (xs : List A) (m : x ∈ xs) → y ∈ xs → y ≢ x → y ∈ remove x xs m
  unfolding remove
  ∈-remove x y [] m k ne = absurd m
  ∈-remove x y (z ∷ zs) (inl e) (inl k) ne = absurd (ne (k ∙ sym e))
  ∈-remove x y (z ∷ zs) (inl e) (inr k) ne = k
  ∈-remove x y (z ∷ zs) (inr m) (inl k) ne = inl k
  ∈-remove x y (z ∷ zs) (inr m) (inr k) ne = inr (∈-remove x y zs m k ne)

  -- Distinct elements of a list are no more than its length.
  pub Distinct-length-le :
      (xs us : List A) → Distinct xs → ((x : A) → x ∈ xs → x ∈ us) → length xs ≤ length us
  Distinct-length-le [] us d sub = omega arith
  Distinct-length-le (x ∷ xs) us (fresh, d) sub =
      let m = sub x (inl refl) in
      let rest = λ (y : A) (k : y ∈ xs).
        ∈-remove x y us m (sub y (inr k)) (λ e. fresh (subst (λ z. z ∈ xs) e k)) in
      omega (arith, length-remove x us m, Distinct-length-le xs (remove x us m) d rest)

pub length-map {ℓ κ} :
    {A : Type ℓ} {B : Type κ} (f : A → B) (xs : List A) → length (map f xs) ≡ length xs
length-map f [] = refl
length-map f (x ∷ xs) = ap suc (length-map f xs)

module _ {A B : Type 0} where
  pub ∈-map : (f : A → B) (b : B) (xs : List A) → (b ∈ map f xs) ↔ ((a : A) × (a ∈ xs) × (f a ≡ b))
  ∈-map f b [] = (λ m. absurd m, λ h. h.1)
  ∈-map f b (x ∷ xs) = (
    λ m. elim m [
      | inl e ↦ (x, inl refl, sym e)
      | inr m' ↦ let (a, k, e) = (∈-map f b xs).0 m' in (a, inr k, e)
    ],
    λ (a, k, e). elim k [
      | inl e' ↦ inl (sym e ∙ ap f e')
      | inr k' ↦ inr ((∈-map f b xs).1 (a, k', e))
    ],
  )

  -- Where the images of a list are distinct, an image stands for one element.
  pub Distinct-map_injective :
      (f : A → B) (xs : List A)
      → Distinct (map f xs)
      → (x y : A) → x ∈ xs
      → y ∈ xs
      → f x ≡ f y
      → x ≡ y
  Distinct-map_injective f [] d x y hx hy e = absurd hx
  Distinct-map_injective f (z ∷ xs) (new, d) x y (inl p) (inl q) e = p ∙ sym q
  Distinct-map_injective f (z ∷ xs) (new, d) x y (inl p) (inr q) e =
      absurd (new ((∈-map f (f z) xs).1 (y, q, sym e ∙ ap f p)))
  Distinct-map_injective f (z ∷ xs) (new, d) x y (inr p) (inl q) e =
      absurd (new ((∈-map f (f z) xs).1 (x, p, e ∙ ap f q)))
  Distinct-map_injective f (z ∷ xs) (new, d) x y (inr p) (inr q) e =
      Distinct-map_injective f xs d x y p q e
