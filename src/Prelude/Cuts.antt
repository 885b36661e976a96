-- ===== src/Prelude/Cuts.antt =====
-- Where `strings.Cut` cuts a text at a slash.
use Prim.Native.Char.{Char, code}
use Prim.Native.String.{String, ◌++◌}
use Prim.Native.String.append
use mathlib.Core.Path.{◌≡◌, refl, sym, ap, ◌∙◌, subst}
use mathlib.Core.Logic.{inl, inr}
use mathlib.Core.Bool.{true, false}
use mathlib.Core.Option.{none, some}
use native.Mathlib.Omega.{arith}
use text.Mathlib.TextEquality.{Char-path}
use krsm.Prelude.Tests.{nat_eq, nat_eq_iff, Bool-cases, Option-cases}
use krsm.Prelude.Slashes.{cut, has_slash}

slash_path : (c : Char) → nat_eq (code c) b'/' ≡ true → c ≡ "/"
slash_path c h = Char-path c "/" ((nat_eq_iff (code c) b'/').0 h)

slash_append : (n : String) → ("/" ++ n) ≡ String.◌∷◌ "/" n
slash_append n = append.cons "/" "" n ∙ ap (λ s. String.◌∷◌ "/" s) (append.nil n)

-- The text is the two parts around its first slash.
abbrev pub CutAs : String → String × String → Type 0
CutAs t p = (t ≡ p.0 ++ "/" ++ p.1) × (has_slash p.0 ≡ false)

pair_of_some : (p q : String × String) → some p ≡ some q → p ≡ q
pair_of_some p q h = cc

pub cut_sound : (t : String) (p : String × String) → cut t ≡ some p → CutAs t p
unfolding cut has_slash
cut_sound String.[] p h = absurd (cc)
cut_sound (String.◌∷◌ c t) p h = elim (Bool-cases (nat_eq (code c) b'/')) [
  | inl e ↦ subst (CutAs (String.◌∷◌ c t)) (pair_of_some ("", t) p (rw (cut, e) at h)) (
    ap (λ d. String.◌∷◌ d t) (slash_path c e) ∙ sym (slash_append t) ∙ sym (append.nil ("/" ++ t)),
    refl,
  )
  | inr e ↦ elim (Option-cases (cut t)) [
    | inl none_left ↦ absurd (cc (rw (cut, e, none_left) at h))
    | inr (q, f) ↦
        let (same, free) = cut_sound t q f in
        subst (CutAs (String.◌∷◌ c t))
          (pair_of_some (String.◌∷◌ c q.0, q.1) p (rw (cut, e, f) at h))
          (
            ap (λ s. String.◌∷◌ c s) same ∙ sym (append.cons c q.0 ("/" ++ q.1)),
            rw (has_slash, e) free,
          )
  ]
]

pub cut_complete : (k n : String) → has_slash k ≡ false → cut (k ++ "/" ++ n) ≡ some (k, n)
unfolding cut has_slash
cut_complete String.[] n h = ap cut (append.nil ("/" ++ n) ∙ slash_append n)
cut_complete (String.◌∷◌ c k) n h =
    let e : nat_eq (code c) b'/' ≡ false = ground arith in
    let free : has_slash k ≡ false = ground arith in
    ap cut (append.cons c k ("/" ++ n)) ∙ rw (cut, e, cut_complete k n free)

-- A text with a slash behind a part without one has one such part.
pub cut_unique :
    (k n j m : String)
    → has_slash k ≡ false
    → has_slash j ≡ false
    → (k ++ "/" ++ n) ≡ (j ++ "/" ++ m)
    → (k ≡ j) × (n ≡ m)
cut_unique k n j m h g e =
    let same : (k, n) ≡ (j, m) =
      pair_of_some (k, n) (j, m) (sym (cut_complete k n h) ∙ ap cut e ∙ cut_complete j m g) in
    (ap (λ (p : String × String). p.0) same, ap (λ (p : String × String). p.1) same)

-- A character in front is taken off.
pub cons_cancel : (c : Char) (s t : String) → String.◌∷◌ c s ≡ String.◌∷◌ c t → s ≡ t
cons_cancel c s t h = cc

pub prefix_cancel : (p s t : String) → (p ++ s) ≡ (p ++ t) → s ≡ t
prefix_cancel String.[] s t h = sym (append.nil s) ∙ h ∙ append.nil t
prefix_cancel (String.◌∷◌ c p) s t h =
    prefix_cancel p s t
      (cons_cancel c (p ++ s) (p ++ t) (sym (append.cons c p s) ∙ h ∙ append.cons c p t))

pub cut-none : (t : String) → cut t ≡ none → has_slash t ≡ false
unfolding cut has_slash
cut-none String.[] h = refl
cut-none (String.◌∷◌ c t) h = elim (Bool-cases (nat_eq (code c) b'/')) [
  | inl e ↦ absurd (cc (rw (cut, e) at h))
  | inr e ↦ elim (Option-cases (cut t)) [
    | inl f ↦ rw (has_slash, e) (cut-none t f)
    | inr (p, f) ↦ absurd (cc (rw (cut, e, f) at h))
  ]
]
