-- ===== src/Prelude/Letters.antt =====
-- What it means that ToLower gives the same of two ASCII texts.
use Prim.Native.Char.{Char, code}
use Prim.Native.Nat.{ℕ, ◌+◌, ◌≤◌}
use Prim.Native.String.{String}
use mathlib.Core.Path.{◌≡◌, refl}
use mathlib.Core.Logic.{◌↔◌, ◌⊎◌, inl, inr}
use mathlib.Core.Bool.{true}
use native.Mathlib.Omega.{arith}
use krsm.Prelude.Tests.{nat_eq, nat_eq_iff, Bool-cases}
use krsm.Prelude.Slashes.{lower, lower_eq}

-- The second is the lowercase letter of the first, a code from A to Z.
abbrev pub LowercaseOf : ℕ → ℕ → Type 0
LowercaseOf c d = (65 ≤ c) × (c ≤ 90) × (d ≡ c + 32)

-- One character, or one letter in its two cases.
abbrev pub SameLetter : ℕ → ℕ → Type 0
SameLetter c d = (c ≡ d) ⊎ (LowercaseOf c d ⊎ LowercaseOf d c)

-- Two texts that differ in the case of letters only.
pub data SameLetters : String → String → Type 0 where
  no_letters : SameLetters String.[] String.[]
  one_letter :
      {c d : Char} {s t : String}
      → SameLetter (code c) (code d)
      → SameLetters s t
      → SameLetters (String.◌∷◌ c s) (String.◌∷◌ d t)

lower_iff : (c d : ℕ) → (lower c ≡ lower d) ↔ SameLetter c d
unfolding lower
lower_iff c d = ground arith

lower_eq_sound : (s t : String) → lower_eq s t ≡ true → SameLetters s t
unfolding lower_eq
lower_eq_sound String.[] String.[] h = no_letters
lower_eq_sound String.[] (String.◌∷◌ d t) h = absurd (cc)
lower_eq_sound (String.◌∷◌ c s) String.[] h = absurd (cc)
lower_eq_sound (String.◌∷◌ c s) (String.◌∷◌ d t) h =
    let same = nat_eq (lower (code c)) (lower (code d)) in
    elim (Bool-cases same) [
      | inr e ↦ absurd (cc (rw (lower_eq, e) at h))
      | inl e ↦
          one_letter
            ((lower_iff (code c) (code d)).0 ((nat_eq_iff (lower (code c)) (lower (code d))).0 e))
            (lower_eq_sound s t (rw (lower_eq, e) at h))
    ]

lower_eq_complete : (s t : String) → SameLetters s t → lower_eq s t ≡ true
unfolding lower_eq
lower_eq_complete _ _ no_letters = refl
lower_eq_complete (String.◌∷◌ c s) (String.◌∷◌ d t) (one_letter e w) = rw (
  lower_eq,
  (nat_eq_iff (lower (code c)) (lower (code d))).1 ((lower_iff (code c) (code d)).1 e),
  lower_eq_complete s t w,
)

pub lower_eq_iff : (s t : String) → (lower_eq s t ≡ true) ↔ SameLetters s t
lower_eq_iff s t = (lower_eq_sound s t, lower_eq_complete s t)
