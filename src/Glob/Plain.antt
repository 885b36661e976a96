-- ===== src/Glob/Plain.antt =====
-- Name patterns without special characters, for the resource clauses of closure/safe.go.
use Prim.Native.Char.{code}
use krsm.Prelude.{
  ℕ, String, true, some, List, [], ◌∷◌, map, ◌≡◌, refl, ◌↔◌, ◌≢◌, ◌∈◌, inl, inr, arith, nat_eq_iff,
  ap,
}
use text.Mathlib.TextEquality.{Char-path}
use krsm.Glob.{codes, star, lit, plain, read, parse, accepts, matches_tokens, glob_match}

-- A character that stands for itself in a pattern.
abbrev pub IsPlain : ℕ → Type 0
IsPlain c = (c ≢ b'*') × (c ≢ b'?') × (c ≢ b'[') × (c ≢ b'\\')

abbrev pub AllPlain : List ℕ → Type 0
AllPlain cs = (c : ℕ) → c ∈ cs → IsPlain c

read-plain : (c : ℕ) → IsPlain c → read plain c ≡ some (plain, lit c ∷ [])
unfolding read
read-plain c p = ground (arith, p)

parse-plain : (cs : List ℕ) → AllPlain cs → parse plain cs ≡ some (map lit cs)
unfolding parse
parse-plain [] p = refl
parse-plain (c ∷ cs) p =
    rw (read-plain c (p c (inl refl)), parse, parse-plain cs (λ d m. p d (inr m)))

matches-lits : (cs s : List ℕ) → (matches_tokens (map lit cs) s ≡ true) ↔ (cs ≡ s)
unfolding matches_tokens accepts
matches-lits [] [] = (λ h. refl, λ h. refl)
matches-lits [] (c ∷ s) = (λ h. absurd (cc), λ h. absurd (cc))
matches-lits (d ∷ cs) [] = (λ h. absurd (cc), λ h. absurd (cc))
matches-lits (d ∷ cs) (c ∷ s) = ground (arith, nat_eq_iff d c, matches-lits cs s)

codes_injective : (s t : String) → codes s ≡ codes t → s ≡ t
codes_injective String.[] String.[] h = refl
codes_injective String.[] (String.◌∷◌ d t) h = absurd (cc)
codes_injective (String.◌∷◌ c s) String.[] h = absurd (cc)
codes_injective (String.◌∷◌ c s) (String.◌∷◌ d t) h =
    let e : code c ≡ code d = cc in
    let f : codes s ≡ codes t = cc in λ i. String.◌∷◌ (Char-path c d e i) (codes_injective s t f i)

-- A pattern with no special character matches the name that it spells, and no other.
pub glob_match-plain :
    (name other : String) → AllPlain (codes name) → (glob_match name other ≡ true) ↔ (name ≡ other)
unfolding glob_match
glob_match-plain name other p =
    rw (parse-plain (codes name) p, glob_match)
      (
        λ h. codes_injective name other ((matches-lits (codes name) (codes other)).0 h),
        λ e. (matches-lits (codes name) (codes other)).1 (ap codes e),
      )

star_matches : (s : List ℕ) → (matches_tokens (star ∷ []) s ≡ true) ↔ (¬ (b'/' ∈ s))
unfolding matches_tokens accepts
star_matches [] = (λ h m. m, λ h. refl)
star_matches (c ∷ s) = ground (arith, nat_eq_iff c b'/', star_matches s)

-- The pattern `*` matches the names without a slash.
pub glob_match-star : (name : String) → (glob_match "*" name ≡ true) ↔ (¬ (b'/' ∈ codes name))
unfolding glob_match parse read
glob_match-star name = star_matches (codes name)
