-- ===== src/Cli/Shown.antt =====
-- cmd/krsm/main.go: the lines of `writeReport` for what escapes and what crosses the boundary.
use krsm.Prelude.{false, List, [], ◌∷◌, ◌≡◌, refl, ◌≢◌, inl, inr, ◌∈◌, ∈-map, Bool-cases}
use krsm.Selector.{is_empty}
use krsm.Model.{Ref, Verdict, allow, warn, block}
use krsm.Cli.{Report}
use krsm.Cli.Output.{detail, write_detail, write_verdict, write_report}

detailed : (x : Ref) (refs : List Ref) → x ∈ refs → detail x ∈ write_detail refs
unfolding write_detail
detailed x refs m = (∈-map detail (detail x) refs).1 (x, m, refl)

-- A list with an element is not empty.
has_some : (x : Ref) (refs : List Ref) → x ∈ refs → is_empty refs ≡ false
has_some x [] m = absurd m
has_some x (r ∷ refs) m = refl

-- Every resource that escapes the scope has its line on the standard output of the report, unless
-- the verdict is Allow.
pub escaping_shown :
    (r : Report) (x : Ref)
    → r.decision.verdict ≢ allow
    → x ∈ r.decision.escaping
    → detail x ∈ (write_report r).stdout
unfolding write_report write_verdict
escaping_shown r x n m = inr (inr (inr (go r.decision.verdict refl)))
  where
    go :
        (v : Verdict)
        → r.decision.verdict ≡ v
        → detail x ∈ (write_verdict r.decision r.plain).stdout
    go allow e = absurd (n e)
    go warn e =
        rw (e, write_verdict, has_some x r.decision.escaping m)
          (inr (detailed x r.decision.escaping m))
    go block e = rw (e, write_verdict) (inr (detailed x r.decision.escaping m))

-- Every effect outside the cluster has its line on the standard error of the report, if the
-- verdict is Warn, whether or not something escapes.
pub external_shown :
    (r : Report) (x : Ref)
    → r.decision.verdict ≡ warn
    → x ∈ r.decision.external
    → detail x ∈ (write_report r).stderr
unfolding write_report write_verdict
external_shown r x e m = elim (Bool-cases (is_empty r.decision.escaping)) [
  | inl f ↦ rw (e, write_verdict, f) (inr (detailed x r.decision.external m))
  | inr f ↦
      rw (e, write_verdict, f, has_some x r.decision.external m)
        (inr (detailed x r.decision.external m))
]
