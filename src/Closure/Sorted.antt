-- ===== src/Closure/Sorted.antt =====
-- closure/closure.go: the sort of `sortedRefs`.
use krsm.Prelude.{
  false, List, [], ◌∷◌, ◌≡◌, refl, ◌↔◌, ◌⊎◌, inl, inr, arith, Bool-cases, ◌∈◌, length, suc, text_lt,
  text_lt-asym, ap, values,
}
use krsm.Model.{Ref, human}
use krsm.Closure.{Affected, insert_sorted, sort_refs, sorted_refs}

-- No reference comes before one that it should follow.
pub data IsSorted : List Ref → Type 0 where
  nil : IsSorted []
  one : (r : Ref) → IsSorted (r ∷ [])
  more :
      {r q : Ref} {l : List Ref}
      → text_lt (human q) (human r) ≡ false
      → IsSorted (q ∷ l)
      → IsSorted (r ∷ q ∷ l)

pub ∈-insert_sorted : (x r : Ref) (l : List Ref) → (x ∈ insert_sorted r l) ↔ ((x ≡ r) ⊎ (x ∈ l))
unfolding insert_sorted
∈-insert_sorted x r [] = (λ m. m, λ m. m)
∈-insert_sorted x r (q ∷ l) = elim (Bool-cases (text_lt (human r) (human q))) [
  | inl e ↦ rw e (λ m. m, λ m. m)
  | inr e ↦ rw e (ground (arith, ∈-insert_sorted x r l))
]

pub ∈-sort_refs : (x : Ref) (l : List Ref) → (x ∈ sort_refs l) ↔ (x ∈ l)
unfolding sort_refs
∈-sort_refs x [] = (λ m. m, λ m. m)
∈-sort_refs x (r ∷ l) = ground (arith, ∈-insert_sorted x r (sort_refs l), ∈-sort_refs x l)

length-insert_sorted : (r : Ref) (l : List Ref) → length (insert_sorted r l) ≡ suc (length l)
unfolding insert_sorted
length-insert_sorted r [] = refl
length-insert_sorted r (q ∷ l) = elim (Bool-cases (text_lt (human r) (human q))) [
  | inl e ↦ rw e
  | inr e ↦ rw e (ap suc (length-insert_sorted r l))
]

pub length-sort_refs : (l : List Ref) → length (sort_refs l) ≡ length l
unfolding sort_refs
length-sort_refs [] = refl
length-sort_refs (r ∷ l) = omega (arith, length-insert_sorted r (sort_refs l), length-sort_refs l)

insert_sorted-after :
    (r q : Ref) (l : List Ref)
    → text_lt (human r) (human q) ≡ false
    → IsSorted (q ∷ l)
    → IsSorted (insert_sorted r l)
    → IsSorted (q ∷ insert_sorted r l)
unfolding insert_sorted
insert_sorted-after r q [] e s t = more e t
insert_sorted-after r q (p ∷ l) e (more h s) t = elim (Bool-cases (text_lt (human r) (human p))) [
  | inl lt ↦ rw lt (more e (rw lt at t))
  | inr ge ↦ rw ge (more h (rw ge at t))
]

IsSorted-tail : {r : Ref} {l : List Ref} → IsSorted (r ∷ l) → IsSorted l
IsSorted-tail (one r) = nil
IsSorted-tail (more h s) = s

insert_sorted-IsSorted : (r : Ref) (l : List Ref) → IsSorted l → IsSorted (insert_sorted r l)
unfolding insert_sorted
insert_sorted-IsSorted r [] s = one r
insert_sorted-IsSorted r (q ∷ l) s = elim (Bool-cases (text_lt (human r) (human q))) [
  | inl e ↦ rw e (more (text_lt-asym (human r) (human q) e) s)
  | inr e ↦ rw e (insert_sorted-after r q l e s (insert_sorted-IsSorted r l (IsSorted-tail s)))
]

pub sort_refs-IsSorted : (l : List Ref) → IsSorted (sort_refs l)
unfolding sort_refs
sort_refs-IsSorted [] = nil
sort_refs-IsSorted (r ∷ l) = insert_sorted-IsSorted r (sort_refs l) (sort_refs-IsSorted l)

pub ∈-sorted_refs : (x : Ref) (m : Affected) → (x ∈ sorted_refs m) ↔ (x ∈ values m)
unfolding sorted_refs
∈-sorted_refs x m = ∈-sort_refs x (values m)
