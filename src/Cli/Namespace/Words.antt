-- ===== src/Cli/Namespace/Words.antt =====
-- cmd/krsm/main.go: the words that `extractNamespace` takes for a namespace flag.
use Prim.Native.String.{◌++◌}
use Prim.Native.String.append
use krsm.Prelude.{
  String, false, none, ◌≡◌, refl, ap, ◌∙◌, ◌≢◌, inl, inr, ◌==◌, eq_iff, neq_false, Bool-cases,
  Option-cases, strip_prefix, strip_prefix-append, strip_prefix_sound,
}
use krsm.Cli.{takes_value, positional, carries, arg_of}

-- The word is no namespace flag, neither alone nor with a value joined to it.
abbrev pub NoFlag : String → Type 0
NoFlag w =
    (w ≢ "-n")
    × (w ≢ "--namespace")
    × ((v : String) → (w ≢ ("-n=" ++ v)) × (w ≢ ("--namespace=" ++ v)))

-- A value that is joined to a flag is told from the flag alone.
short_joined_neq : (v w : String) → strip_prefix "-n=" w ≡ none → (("-n=" ++ v) == w) ≡ false
short_joined_neq v w h = elim (Bool-cases (("-n=" ++ v) == w)) [
  | inr e ↦ e
  | inl e ↦
      absurd
        (cc (strip_prefix-append "-n=" v, ap (strip_prefix "-n=") ((eq_iff ("-n=" ++ v) w).0 e), h))
]

long_joined_neq :
    (v w : String) → strip_prefix "--namespace=" w ≡ none → (("--namespace=" ++ v) == w) ≡ false
long_joined_neq v w h = elim (Bool-cases (("--namespace=" ++ v) == w)) [
  | inr e ↦ e
  | inl e ↦ absurd (
      cc (
        strip_prefix-append "--namespace=" v,
        ap (strip_prefix "--namespace=") ((eq_iff ("--namespace=" ++ v) w).0 e),
        h,
      ))
]

long_is_not_short : (v : String) → strip_prefix "-n=" ("--namespace=" ++ v) ≡ none
unfolding strip_prefix
long_is_not_short v =
    ap (strip_prefix "-n=") (append.cons "-" "-namespace=" v)
    ∙ ap (λ s. strip_prefix "-n=" (String.◌∷◌ "-" s)) (append.cons "-" "namespace=" v)

pub arg_of-short : arg_of "-n" ≡ takes_value
unfolding arg_of
arg_of-short = refl

pub arg_of-long : arg_of "--namespace" ≡ takes_value
unfolding arg_of
arg_of-long = refl

pub arg_of-short_joined : (v : String) → arg_of ("-n=" ++ v) ≡ carries v
unfolding arg_of strip_prefix
arg_of-short_joined v = rw (
  arg_of,
  short_joined_neq v "-n" refl,
  short_joined_neq v "--namespace" refl,
  strip_prefix-append "-n=" v,
)

pub arg_of-long_joined : (v : String) → arg_of ("--namespace=" ++ v) ≡ carries v
unfolding arg_of strip_prefix
arg_of-long_joined v = rw (
  arg_of,
  long_joined_neq v "-n" refl,
  long_joined_neq v "--namespace" refl,
  long_is_not_short v,
  strip_prefix-append "--namespace=" v,
)

unprefixed : (p w : String) → ((v : String) → w ≢ (p ++ v)) → strip_prefix p w ≡ none
unprefixed p w n = elim (Option-cases (strip_prefix p w)) [
  | inl e ↦ e
  | inr (v, e) ↦ absurd (n v (strip_prefix_sound p w v e))
]

pub arg_of-NoFlag : (w : String) → NoFlag w → arg_of w ≡ positional
unfolding arg_of
arg_of-NoFlag w (s, l, j) = rw (
  arg_of,
  neq_false w "-n" s,
  neq_false w "--namespace" l,
  unprefixed "-n=" w (λ v. (j v).0),
  unprefixed "--namespace=" w (λ v. (j v).1),
)

pub NoFlag-arg_of : (w : String) → arg_of w ≡ positional → NoFlag w
NoFlag-arg_of w h = (
  λ e. cc (h, ap arg_of e, arg_of-short),
  λ e. cc (h, ap arg_of e, arg_of-long),
  λ v. (
    λ e. cc (h, ap arg_of e, arg_of-short_joined v),
    λ e. cc (h, ap arg_of e, arg_of-long_joined v),
  ),
)
