-- ===== src/Prelude/Slashes.antt =====
-- The functions of Go's package strings that take a text apart or compare it: Cut and Contains at a
-- slash, TrimPrefix behind HasPrefix, and equality of what ToLower gives on ASCII texts.
use Prim.Native.Char.{code}
use Prim.Native.Nat.{ℕ, ◌+◌}
use Prim.Native.String.{String}
use mathlib.Core.Bool.{Bool, true, false, ◌||◌, ◌&&◌}
use mathlib.Core.Option.{Option, none, some}
use krsm.Prelude.Tests.{nat_eq, leb, if◌then◌else◌}

-- `strings.Cut(s, "/")`
unfoldable pub cut : String → Option (String × String)
cut String.[] = none
cut (String.◌∷◌ c s) = elim (nat_eq (code c) b'/') [
  | true ↦ some ("", s)
  | false ↦ elim (cut s) [ none ↦ none | some (before, after) ↦ some (String.◌∷◌ c before, after) ]
]

-- `strings.Contains(s, "/")`
unfoldable pub has_slash : String → Bool
has_slash String.[] = false
has_slash (String.◌∷◌ c s) = nat_eq (code c) b'/' || has_slash s

-- `strings.TrimPrefix(s, prefix)` where `strings.HasPrefix(s, prefix)`
unfoldable pub strip_prefix : String → String → Option String
strip_prefix String.[] s = some s
strip_prefix (String.◌∷◌ p ps) String.[] = none
strip_prefix (String.◌∷◌ p ps) (String.◌∷◌ c s) = elim (nat_eq (code p) (code c)) [
  | true ↦ strip_prefix ps s
  | false ↦ none
]

-- The code of the lowercase letter.
unfoldable pub lower : ℕ → ℕ
lower c = if leb 65 c && leb c 90 then c + 32 else c

-- `strings.ToLower(s) == strings.ToLower(t)`
unfoldable pub lower_eq : String → String → Bool
unfolding lower
lower_eq String.[] String.[] = true
lower_eq (String.◌∷◌ c s) (String.◌∷◌ d t) =
    nat_eq (lower (code c)) (lower (code d)) && lower_eq s t
lower_eq String.[] (String.◌∷◌ d t) = false
lower_eq (String.◌∷◌ c s) String.[] = false
