-- ===== src/Cli/Target.antt =====
-- cmd/krsm/main.go: `splitTarget` and `parseAction`.
use Prim.Native.String.{◌++◌}
use krsm.Prelude.{
  String, false, some, ◌≡◌, ap, ◌∙◌, ◌≢◌, ◌↔◌, inl, inr, arith, eq_iff, Option-cases, ◌∈◌,
  has_key_iff, cut, has_slash, cut_sound, cut_complete, ok,
}
use krsm.Model.{Action}
use krsm.Cli.{split_target, parse_action, live_verbs, action_on}

-- `splitTarget` returns a kind and a name exactly for the text that joins them by a slash, where
-- neither is empty and the kind has no slash.
pub split_target_iff :
    (target kind name : String)
    → (split_target target ≡ ok (kind, name))
      ↔ ((target ≡ kind ++ "/" ++ name) × (has_slash kind ≡ false) × (kind ≢ "") × (name ≢ ""))
unfolding split_target
split_target_iff target kind name = (forth, back)
  where
    forth :
        split_target target ≡ ok (kind, name)
        → (target ≡ kind ++ "/" ++ name) × (has_slash kind ≡ false) × (kind ≢ "") × (name ≢ "")
    forth h = elim (Option-cases (cut target)) [
      | inl e ↦ absurd (cc (rw (split_target, e) at h))
      | inr ((k, n), e) ↦
          let same : (k, n) ≡ (kind, name) = ground (arith, e) in
          let (t, free) = cut_sound target (kind, name) (e ∙ ap some same) in
          let filled : (kind ≢ "") × (name ≢ "") =
            ground (arith, e, same, eq_iff kind "", eq_iff name "") in
          (t, free, filled.0, filled.1)
    ]

    back :
        (target ≡ kind ++ "/" ++ name) × (has_slash kind ≡ false) × (kind ≢ "") × (name ≢ "")
        → split_target target ≡ ok (kind, name)
    back (t, free, k, n) =
        let e : cut target ≡ some (kind, name) = ap cut t ∙ cut_complete kind name free in
        rw (split_target, e) (ground (arith, eq_iff kind "", eq_iff name ""))

-- `parseAction` builds an action exactly for a supported verb, a kind and a name, and then one
-- without uid or payload that cascades if it deletes.
pub parse_action_iff :
    (verb kind name namespace : String) (a : Action)
    → (parse_action verb kind name namespace ≡ ok a)
      ↔ ((verb ∈ live_verbs) × (kind ≢ "") × (name ≢ "") × (a ≡ action_on verb kind name namespace))
unfolding parse_action
parse_action_iff verb kind name namespace a = (forth, back)
  where
    forth :
        parse_action verb kind name namespace ≡ ok a
        → (verb ∈ live_verbs) × (kind ≢ "") × (name ≢ "") × (a ≡ action_on verb kind name namespace)
    forth h = (
      ground (arith, has_key_iff live_verbs verb),
      ground (arith, eq_iff kind ""),
      ground (arith, eq_iff name ""),
      ground arith,
    )

    back :
        (verb ∈ live_verbs) × (kind ≢ "") × (name ≢ "") × (a ≡ action_on verb kind name namespace)
        → parse_action verb kind name namespace ≡ ok a
    back (v, k, n, e) =
        rw e (ground (arith, (has_key_iff live_verbs verb).1 v, eq_iff kind "", eq_iff name ""))
