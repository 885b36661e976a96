-- ===== src/Glob.antt =====
-- Go's `path.Match`, which closure/safe.go calls on the name of a resource clause. A pattern is
-- parsed into tokens and matched on the code points of the name; a malformed pattern, for which
-- `path.Match` returns an error, matches nothing. `*` and `?` do not match a slash. Go
-- skips bytes for a `*`, which is the same for ASCII names, as those of Kubernetes are.
pub mod Plain
use Prim.Native.Char.{code}
use krsm.Prelude.{
  ℕ, String, Bool, true, false, not, ◌&&◌, ◌||◌, Option, none, some, List, [], ◌∷◌, ◌++◌, nat_eq,
  leb, any, if◌then◌else◌,
}

abbrev pub codes : String → List ℕ
codes String.[] = []
codes (String.◌∷◌ first rest) = code first ∷ codes rest

pub data Token : Type 0 where
  star one : Token
  lit : ℕ → Token
  class : Bool → List (ℕ × ℕ) → Token

-- Where the parser stands: outside a class, behind a backslash, or inside a class, with its
-- negation, the ranges so far, and the lower end of the range that is being read.
pub data Mode : Type 0 where
  plain escape class_start : Mode
  class_next class_escape : Bool → List (ℕ × ℕ) → Mode
  class_low class_high class_high_escape : Bool → List (ℕ × ℕ) → ℕ → Mode

-- A round gives the next mode and the tokens that are complete; `none` is `ErrBadPattern`.
abbrev Round : Type 0
Round = Option (Mode × List Token)

abbrev is_none_yet : List (ℕ × ℕ) → Bool
is_none_yet [] = true
is_none_yet (_ ∷ _) = false

next_in_class : Bool → List (ℕ × ℕ) → ℕ → Round
next_in_class neg rs c =
    if nat_eq c b']' && not (is_none_yet rs)
    then some (plain, class neg rs ∷ [])
    else if nat_eq c b'\\'
    then some (class_escape neg rs, [])
    else if nat_eq c b'-' || nat_eq c b']'
    then none
    else some (class_low neg rs c, [])

unfoldable pub read : Mode → ℕ → Round
unfolding next_in_class
read plain c =
    if nat_eq c b'*'
    then some (plain, star ∷ [])
    else if nat_eq c b'?'
    then some (plain, one ∷ [])
    else if nat_eq c b'['
    then some (class_start, [])
    else if nat_eq c b'\\'
    then some (escape, [])
    else some (plain, lit c ∷ [])
read escape c = some (plain, lit c ∷ [])
read class_start c =
    if nat_eq c b'^' then some (class_next true [], []) else next_in_class false [] c
read (class_next neg rs) c = next_in_class neg rs c
read (class_escape neg rs) c = some (class_low neg rs c, [])
read (class_low neg rs lo) c =
    if nat_eq c b'-' then some (class_high neg rs lo, []) else next_in_class neg ((lo, lo) ∷ rs) c
read (class_high neg rs lo) c =
    if nat_eq c b'\\'
    then some (class_high_escape neg rs lo, [])
    else if nat_eq c b'-' || nat_eq c b']'
    then none
    else some (class_next neg ((lo, c) ∷ rs), [])
read (class_high_escape neg rs lo) c = some (class_next neg ((lo, c) ∷ rs), [])

unfoldable pub parse : Mode → List ℕ → Option (List Token)
unfolding read
parse plain [] = some []
parse _ [] = none
parse m (c ∷ cs) = elim (read m c) [
  | none ↦ none
  | some (m', out) ↦ elim (parse m' cs) [ none ↦ none | some rest ↦ some (out ++ rest) ]
]

-- What one character may be; a class, other than `?`, may match a slash.
unfoldable pub accepts : Token → ℕ → Bool
unfolding any
accepts star c = not (nat_eq c b'/')
accepts one c = not (nat_eq c b'/')
accepts (lit d) c = nat_eq d c
accepts (class neg rs) c =
    let found = any (λ r. leb r.0 c && leb c r.1) rs in if neg then not found else found

unfoldable pub matches_tokens : List Token → List ℕ → Bool
unfolding accepts
matches_tokens [] [] = true
matches_tokens [] (c ∷ s) = false
matches_tokens (star ∷ p) [] = matches_tokens p []
matches_tokens (star ∷ p) (c ∷ s) = elim (matches_tokens p (c ∷ s)) [
  | true ↦ true
  | false ↦ elim (accepts star c) [ true ↦ matches_tokens (star ∷ p) s | false ↦ false ]
]
matches_tokens (t ∷ p) [] = false
matches_tokens (t ∷ p) (c ∷ s) = accepts t c && matches_tokens p s

-- `ok` of `ok, _ := path.Match(pattern, name)`
unfoldable pub glob_match : String → String → Bool
unfolding parse matches_tokens
glob_match pattern_text name = elim (parse plain (codes pattern_text)) [
  | none ↦ false
  | some tokens ↦ matches_tokens tokens (codes name)
]
