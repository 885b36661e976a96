-- ===== src/Prelude/Prefixes.antt =====
-- What `strings.HasPrefix` and `strings.TrimPrefix` find in front of a text.
use Prim.Native.Char.{code}
use Prim.Native.String.{String, ◌++◌}
use Prim.Native.String.append
use mathlib.Core.Path.{◌≡◌, refl, sym, ap, ◌∙◌}
use mathlib.Core.Logic.{inl, inr}
use mathlib.Core.Option.{some}
use text.Mathlib.TextEquality.{Char-path}
use krsm.Prelude.Tests.{nat_eq, nat_eq_iff, Bool-cases}
use krsm.Prelude.Slashes.{strip_prefix}

pub strip_prefix-append : (p v : String) → strip_prefix p (p ++ v) ≡ some v
unfolding strip_prefix
strip_prefix-append String.[] v = ap some (append.nil v)
strip_prefix-append (String.◌∷◌ c p) v =
    ap (strip_prefix (String.◌∷◌ c p)) (append.cons c p v)
    ∙ rw (strip_prefix, (nat_eq_iff (code c) (code c)).1 refl) (strip_prefix-append p v)

pub strip_prefix_sound : (p s v : String) → strip_prefix p s ≡ some v → s ≡ (p ++ v)
unfolding strip_prefix
strip_prefix_sound String.[] s v h = let same : s ≡ v = cc in same ∙ sym (append.nil v)
strip_prefix_sound (String.◌∷◌ c p) String.[] v h = absurd (cc)
strip_prefix_sound (String.◌∷◌ c p) (String.◌∷◌ d s) v h =
    elim (Bool-cases (nat_eq (code c) (code d))) [
      | inr e ↦ absurd (cc (rw (strip_prefix, e) at h))
      | inl e ↦
          ap (λ x. String.◌∷◌ x s) (sym (Char-path c d ((nat_eq_iff (code c) (code d)).0 e)))
          ∙ ap (λ t. String.◌∷◌ c t) (strip_prefix_sound p s v (rw (strip_prefix, e) at h))
          ∙ sym (append.cons c p v)
    ]
