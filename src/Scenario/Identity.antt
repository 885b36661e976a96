-- ===== src/Scenario/Identity.antt =====
-- internal/scenario/scenario.go: `nsOf` and `uidOf`.
use Prim.Native.String.{◌++◌}
use krsm.Prelude.{
  String, false, ◌≡◌, refl, ◌≢◌, inl, inr, ◌↔◌, ◌∈◌, ◌==◌, Bool-cases, ne, has_slash, has_key,
  has_key_iff, cut_unique, prefix_cancel,
}
use krsm.Scenario.{cluster_scoped_kinds, ns_of, uid_of}

pub uid_of_unique :
    (kind ns name kind' ns' name' : String)
    → (has_slash kind ≡ false) × (has_slash ns ≡ false)
    → (has_slash kind' ≡ false) × (has_slash ns' ≡ false)
    → uid_of kind ns name ≡ uid_of kind' ns' name'
    → (kind ≡ kind') × (ns ≡ ns') × (name ≡ name')
unfolding uid_of
uid_of_unique kind ns name kind' ns' name' (fk, fn) (fk', fn') h =
    let rest =
      prefix_cancel "uid:" (kind ++ "/" ++ ns ++ "/" ++ name) (kind' ++ "/" ++ ns' ++ "/" ++ name')
        h in
    let (k, tail) = cut_unique kind (ns ++ "/" ++ name) kind' (ns' ++ "/" ++ name') fk fk' rest in
    let (n, m) = cut_unique ns name ns' name' fn fn' tail in (k, n, m)

pub ns_of-eq_empty : (kind ns : String) → (ns_of kind ns ≡ "") ↔ (kind ∈ cluster_scoped_kinds)
unfolding ns_of
ns_of-eq_empty kind ns = elim (Bool-cases (has_key cluster_scoped_kinds kind)) [
  | inl e ↦ (λ h. (has_key_iff cluster_scoped_kinds kind).0 e, λ m. rw e)
  | inr e ↦
      (λ h. absurd (filled e h), λ m. absurd (cc (e, (has_key_iff cluster_scoped_kinds kind).1 m)))
]
  where
    filled : has_key cluster_scoped_kinds kind ≡ false → ns_of kind ns ≢ ""
    filled e h = elim (Bool-cases (ns == "")) [
      | inl f ↦ absurd (ne "default" "" refl (rw (ns_of, e, f) at h))
      | inr f ↦ absurd (ne ns "" f (rw (ns_of, e, f) at h))
    ]
