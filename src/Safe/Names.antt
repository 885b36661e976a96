-- ===== src/Safe/Names.antt =====
-- closure/safe.go: the resource clauses that `ResourceClause` builds, with a plain name.
use krsm.Prelude.{
  suc, String, Bool, true, some, List, [], ◌∷◌, ◌≡◌, refl, inl, inr, ◌↔◌, length, subst, ne,
}
use krsm.Model.{Gvk, Ref}
use krsm.Model.Clause.{resource_clause, dim_resource, dim_selector, dim_namespace, dim_ownership}
use krsm.State.{State}
use krsm.State.Laws.{IsOver}
use krsm.Glob.{codes}
use krsm.Glob.Plain.{AllPlain, glob_match-plain}
use krsm.Safe.{Memo, match_scope}
use krsm.Safe.Covers.{Admits, Covers, by_name, by_labels, by_namespace, is_root, is_owned, Covered}
use krsm.Safe.Roots.{RootsAgree}
use krsm.Safe.Matching.{match_scope_exact}

-- Over a state that answers with listed references only, where keys identify the references,
-- `matchScope` under a scope of one resource clause with a plain name returns with one unit of
-- fuel more than the list is long, and says yes exactly to the resources of that name that the
-- gate of the clause admits.
pub resource_clause_exact :
    (s : State) (us : List Ref) (gvk : Gvk) (ns name : String) (r : Ref)
    → IsOver s us
    → RootsAgree s us (resource_clause gvk ns name ∷ [])
    → AllPlain (codes name)
    → (b : Bool) × (memo : Memo) × (match_scope
          (suc (length us))
          s
          r
          (resource_clause gvk ns name ∷ [])
          []
        ≡ some (b, memo))
      × ((b ≡ true) ↔ (Admits (resource_clause gvk ns name) r × (name ≡ r.name)))
unfolding resource_clause
resource_clause_exact s us gvk ns name r over agree p =
    let scope = resource_clause gvk ns name ∷ [] in
    let (b, memo, e, t) = match_scope_exact s us over scope agree r in
    (
      b,
      memo,
      e,
      (
        λ h. only (t.0 h),
        λ (a, n). t.1 (
          resource_clause gvk ns name,
          inl refl,
          by_name (inr refl) a ((glob_match-plain name r.name p).1 n),
        ),
      ),
    )
  where
    named :
        Covers s r (resource_clause gvk ns name)
        → Admits (resource_clause gvk ns name) r × (name ≡ r.name)
    named (by_name d a m) = (a, (glob_match-plain name r.name p).0 m)
    named (by_labels d a n o e m) = absurd (ne dim_resource dim_selector refl d)
    named (by_namespace d a) = absurd (ne dim_resource dim_namespace refl d)
    named (is_root d e) = absurd (ne dim_resource dim_ownership refl d)
    named (is_owned d q w e) = absurd (ne dim_resource dim_ownership refl d)

    only :
        Covered s (resource_clause gvk ns name ∷ []) r
        → Admits (resource_clause gvk ns name) r × (name ≡ r.name)
    only (c, inl e, w) = named (subst (Covers s r) e w)
    only (c, inr no_more, w) = absurd no_more
