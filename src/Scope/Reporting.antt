-- ===== src/Scope/Reporting.antt =====
-- scope/scope.go: `Mode.Apply`.
use krsm.Prelude.{true, List, [], ◌∷◌, ◌≡◌, refl, ◌≢◌, ◌⊎◌, ◌↔◌, arith, eq_iff}
use krsm.Selector.{is_empty}
use krsm.Model.{Decision, Verdict, allow, warn, block}
use krsm.Scope.{Mode, mode_audit, is_block, apply}

-- A denial because something escapes the scope, as opposed to a closure that is unknown.
abbrev pub IsEscape : Decision → Type 0
IsEscape d = (d.verdict ≡ block) × (d.escaping ≢ [])

-- What a report `e` under a mode has to do with the decision `d`.
pub record Reports (m : Mode) (d e : Decision) : Type 0 where
  pub closure : e.closure ≡ d.closure
  pub escaping : e.escaping ≡ d.escaping
  pub external : e.external ≡ d.external
  pub outcome :
      ((m ≡ mode_audit) × IsEscape d × (e.verdict ≡ warn))
      ⊎ ((¬ ((m ≡ mode_audit) × IsEscape d)) × (e ≡ d))

is_empty_iff {ℓ} : {A : Type ℓ} (l : List A) → (is_empty l ≡ true) ↔ (l ≡ [])
is_empty_iff [] = (λ h. refl, λ h. refl)
is_empty_iff (x ∷ l) = (λ h. cc, λ h. cc)

pub is_block_iff : (v : Verdict) → (is_block v ≡ true) ↔ (v ≡ block)
is_block_iff allow = ground arith
is_block_iff warn = ground arith
is_block_iff block = ground arith

-- Under every mode the members and effects of a decision are reported as they are; audit turns a
-- scope escape into a warning, and any other decision, or any mode but audit, leaves the decision
-- unchanged.
pub apply-Reports : (m : Mode) (d : Decision) → Reports m d (apply m d)
unfolding apply
apply-Reports m d = record {
  closure = ground arith;
  escaping = ground arith;
  external = ground arith;
  outcome = ground (arith, eq_iff m mode_audit, is_block_iff d.verdict, is_empty_iff d.escaping);
}
