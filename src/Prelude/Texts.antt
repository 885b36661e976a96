-- ===== src/Prelude/Texts.antt =====
-- Texts in Go's order, and dictionaries from texts as association lists.
use Prim.Native.Nat.{Ordering, compare as compare_ℕ}
use Prim.Native.Char.{code}
use Prim.Native.String.compare as compare_text
use Prim.Native.String.{String, compare as compare_text, then as then_by}
use mathlib.Core.Path.{◌≡◌, refl, sym, ◌∙◌, ap, subst}
use mathlib.Core.Logic.{◌↔◌, ◌≢◌, ◌⊎◌, inl, inr}
use mathlib.Core.Bool.{Bool, true, false}
use mathlib.Core.Option.{Option, none, some}
use mathlib.Core.List.{List, [], ◌∷◌, map}
use native.Mathlib.Omega.{arith}
use text.Mathlib.Text.{◌==◌, is_lt}
use text.Mathlib.TextEquality.{eq_iff}
use text.Mathlib.TextPositions.{eq_refl}
use krsm.Prelude.Tests.{if◌then◌else◌, Bool-cases}
use krsm.Prelude.Lists.{◌∈◌, any, any_iff, Distinct, ∈-map}

-- `a < b` on strings
unfoldable pub text_lt : String → String → Bool
text_lt s t = is_lt (compare_text s t)

-- Texts whose test fails are different; so are two literals, by `refl`.
pub ne : (x y : String) → (x == y) ≡ false → x ≢ y
ne x y e h = cc (e, (eq_iff x y).1 h)

pub text_dec : (x y : String) → (x ≡ y) ⊎ (x ≢ y)
text_dec x y = elim (Bool-cases (x == y)) [
  | inl e ↦ inl ((eq_iff x y).0 e)
  | inr e ↦ inr (ne x y e)
]

-- A Go map with the zero value for a missing key is read by `lookup_or`.
module _ {ℓ} {V : Type ℓ} where
  -- `v, ok := m[x]`
  unfoldable pub lookup : String → List (String × V) → Option V
  lookup x [] = none
  lookup x ((y, val) ∷ rest) = if y == x then some val else lookup x rest

  -- `m[x] = val`, in place where the key is there, and at the end where it is new.
  unfoldable pub insert : String → V → List (String × V) → List (String × V)
  insert x val [] = (x, val) ∷ []
  insert x val ((y, old) ∷ rest) = if y == x then (x, val) ∷ rest else (y, old) ∷ insert x val rest

  unfoldable pub lookup_or : V → String → List (String × V) → V
  unfolding lookup
  lookup_or d k m = elim (lookup k m) [ none ↦ d | some v ↦ v ]

abbrev pub keys {ℓ} : {V : Type ℓ} → List (String × V) → List String
keys m = map (λ p. p.0) m

abbrev pub values {ℓ} : {V : Type ℓ} → List (String × V) → List V
values m = map (λ p. p.1) m

-- a Go set of strings
unfoldable pub has_key : List String → String → Bool
unfolding any
has_key ks k = any (λ j. j == k) ks

pub has_key_iff : (ks : List String) (k : String) → (has_key ks k ≡ true) ↔ (k ∈ ks)
unfolding has_key
has_key_iff ks k = (
  λ h. let (j, m, e) = (any_iff (λ j. j == k) ks).0 h in subst (λ x. x ∈ ks) ((eq_iff j k).0 e) m,
  λ m. (any_iff (λ j. j == k) ks).1 (k, m, eq_refl k),
)

then-lt :
    (o r : Ordering)
    → then_by o r ≡ Ordering.lt
    → (o ≡ Ordering.lt) ⊎ (o ≡ Ordering.eq) × (r ≡ Ordering.lt)
then-lt Ordering.lt r h = inl refl
then-lt Ordering.eq r h = inr (refl, h)
then-lt Ordering.gt r h = cc

compare_text-asym : (s t : String) → compare_text s t ≡ Ordering.lt → compare_text t s ≢ Ordering.lt
compare_text-asym String.[] String.[] h k = cc (compare_text.nil-nil)
compare_text-asym String.[] (String.◌∷◌ d t) h k = cc (compare_text.cons-nil d t)
compare_text-asym (String.◌∷◌ c s) String.[] h k = cc (compare_text.cons-nil c s)
compare_text-asym (String.◌∷◌ c s) (String.◌∷◌ d t) h k =
    let ih = compare_text-asym s t in
    let p =
      then-lt (compare_ℕ (code c) (code d)) (compare_text s t)
        (sym (compare_text.cons-cons c d s t) ∙ h) in
    let q =
      then-lt (compare_ℕ (code d) (code c)) (compare_text t s)
        (sym (compare_text.cons-cons d c t s) ∙ k) in
    ground (arith, ih, p, q)

pub text_lt-asym : (s t : String) → text_lt s t ≡ true → text_lt t s ≡ false
unfolding text_lt
text_lt-asym s t h = ground (arith, compare_text-asym s t)

module _ {V : Type 0} where
  pub lookup-eq-some :
      (k : String) (v : V) (m : List (String × V)) → lookup k m ≡ some v → (k, v) ∈ m
  unfolding lookup
  lookup-eq-some k v [] h = absurd (cc)
  lookup-eq-some k v ((j, w) ∷ m) h = elim (Bool-cases (j == k)) [
    | inl e ↦ inl (λ i. (sym ((eq_iff j k).0 e) i, some-eq (rw e at h) i))
    | inr e ↦ inr (lookup-eq-some k v m (rw e at h))
  ]
    where
      some-eq : some w ≡ some v → v ≡ w
      some-eq p = cc

  pub mem-keys : (k : String) (m : List (String × V)) → k ∈ keys m → (v : V) × (lookup k m ≡ some v)
  unfolding lookup
  mem-keys k [] h = absurd h
  mem-keys k ((j, w) ∷ m) h = elim (Bool-cases (j == k)) [
    | inl e ↦ (w, rw e)
    | inr e ↦ rw e (
        mem-keys k m
          (elim h [ inl e' ↦ absurd (cc (e, ap (λ x. x == k) e', eq_refl k)) | inr m' ↦ m' ]))
  ]

  pub ∈-keys : (k : String) (v : V) (m : List (String × V)) → (k, v) ∈ m → k ∈ keys m
  ∈-keys k v m h = (∈-map (λ (p : String × V). p.0) k m).1 ((k, v), h, refl)

  pub lookup-mem-keys :
      (k : String) (v : V) (m : List (String × V)) → lookup k m ≡ some v → k ∈ keys m
  lookup-mem-keys k v m h = ∈-keys k v m (lookup-eq-some k v m h)

  -- In a map, where no key occurs twice, `lookup` finds each entry.
  pub lookup-of_mem :
      (k : String) (v : V) (m : List (String × V))
      → Distinct (keys m)
      → (k, v) ∈ m
      → lookup k m ≡ some v
  unfolding lookup
  lookup-of_mem k v [] d h = absurd h
  lookup-of_mem k v ((j, w) ∷ m) d h = elim h [
    | inl e ↦
        let same : k ≡ j = ap (λ p. p.0) e in
        let val : v ≡ w = ap (λ p. p.1) e in rw ((eq_iff j k).1 (sym same)) (ap some (sym val))
    | inr h' ↦ elim (Bool-cases (j == k)) [
      | inl e ↦ absurd (d.0 (subst (λ x. x ∈ keys m) (sym ((eq_iff j k).0 e)) (∈-keys k v m h')))
      | inr e ↦ rw e (lookup-of_mem k v m d.1 h')
    ]
  ]

  -- Reading one key after another was written.
  pub lookup-insert :
      (x z : String) (val : V) (dict : List (String × V))
      → lookup z (insert x val dict) ≡ (if x == z then some val else lookup z dict)
  unfolding insert lookup
  lookup-insert x z val [] = refl
  lookup-insert x z val ((y, old) ∷ rest) =
      ground (arith, lookup-insert x z val rest, eq_iff y z, eq_iff y x, eq_iff x z)

  pub keys-insert :
      (k j : String) (v : V) (m : List (String × V))
      → (j ∈ keys (insert k v m)) ↔ ((j ≡ k) ⊎ (j ∈ keys m))
  unfolding insert
  keys-insert k j v [] = ground arith
  keys-insert k j v ((i, w) ∷ m) = ground (arith, eq_iff i k, keys-insert k j v m)

  pub Distinct-insert :
      (k : String) (v : V) (m : List (String × V))
      → Distinct (keys m)
      → Distinct (keys (insert k v m))
  unfolding insert
  Distinct-insert k v [] d = ground arith
  Distinct-insert k v ((i, w) ∷ m) d =
      ground (arith, eq_iff i k, keys-insert k i v m, Distinct-insert k v m)

  pub ∈-insert :
      (k : String) (v : V) (p : String × V) (m : List (String × V))
      → p ∈ insert k v m
      → (p ≡ (k, v)) ⊎ (p ∈ m)
  unfolding insert
  ∈-insert k v p [] h = ground arith
  ∈-insert k v p ((i, w) ∷ m) h = elim (Bool-cases (i == k)) [
    | inl e ↦ elim (mem_if e h) [ inl a ↦ inl a | inr b ↦ inr (inr b) ]
    | inr e ↦ elim (mem_else e h) [
      | inl a ↦ inr (inl a)
      | inr b ↦ elim (∈-insert k v p m b) [ inl c ↦ inl c | inr c ↦ inr (inr c) ]
    ]
  ]
    where
      mem_if : (i == k) ≡ true → p ∈ insert k v ((i, w) ∷ m) → (p ≡ (k, v)) ⊎ (p ∈ m)
      mem_if e q = rw e at q

      mem_else : (i == k) ≡ false → p ∈ insert k v ((i, w) ∷ m) → (p ≡ (i, w)) ⊎ (p ∈ insert k v m)
      mem_else e q = rw e at q

pub neq_false : (s t : String) → s ≢ t → (s == t) ≡ false
neq_false s t n = elim (Bool-cases (s == t)) [ inl e ↦ absurd (n ((eq_iff s t).0 e)) | inr e ↦ e ]
