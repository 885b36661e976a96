-- ===== src/Scenario/Documents.antt =====
-- internal/scenario/scenario.go: the documents of cluster.yaml. A text is a list of characters, a
-- newline is the character 10.
use Prim.Native.Char.{code}
use Prim.Native.String.{◌++◌}
use krsm.Prelude.{
  ℕ, zero, suc, String, Bool, true, false, ◌&&◌, ◌||◌, Option, none, some, List, [], ◌∷◌, ◌==◌,
  nat_eq, leb, if◌then◌else◌, strip_prefix,
}

abbrev pub is_newline : ℕ → Bool
is_newline c = nat_eq c 10

-- `\s` of the package regexp.
unfoldable pub is_blank : ℕ → Bool
is_blank c = nat_eq c 9 || nat_eq c 10 || nat_eq c 12 || nat_eq c 13 || nat_eq c 32

-- The length of the longest run of blanks at the start behind which a line ends: `\s*$`.
unfoldable pub blank_run : String → Option ℕ
unfolding is_blank
blank_run String.[] = some 0
blank_run (String.◌∷◌ c s) =
    let longer = blank_run s in
    if is_blank (code c)
    then elim longer [ some n ↦ some (suc n) | none ↦ if is_newline (code c) then some 0 else none ]
    else none

-- What follows the dashes of a separator, if one stands here, at the start of a line.
unfoldable pub separator_tail : Bool → String → Option ℕ
unfolding blank_run strip_prefix
separator_tail starts_line s =
    if starts_line
    then elim (strip_prefix "---" s) [ none ↦ none | some rest ↦ blank_run rest ]
    else none

-- A piece with one more character in front.
unfoldable pub push : String → List String → List String
push c [] = c ∷ []
push c (piece ∷ pieces) = (c ++ piece) ∷ pieces

-- `docSep.Split(raw, -1)`, where `skip` counts the characters of a separator that are left.
unfoldable pub split_from : ℕ → Bool → String → List String
unfolding separator_tail push
split_from skip starts_line String.[] = "" ∷ []
split_from zero starts_line (String.◌∷◌ c s) =
    let newline = is_newline (code c) in
    let kept = split_from zero newline s in
    elim (separator_tail starts_line (String.◌∷◌ c s)) [
      | none ↦ push (String.◌∷◌ c String.[]) kept
      | some n ↦ "" ∷ split_from (suc (suc n)) newline s
    ]
split_from (suc skip) starts_line (String.◌∷◌ c s) = split_from skip (is_newline (code c)) s

unfoldable pub split_documents : String → List String
unfolding split_from
split_documents raw = split_from 0 true raw

-- `unicode.IsSpace`
unfoldable pub is_space : ℕ → Bool
is_space c =
    (leb 9 c && leb c 13)
    || nat_eq c 32
    || nat_eq c 133
    || nat_eq c 160
    || nat_eq c 5760
    || (leb 8192 c && leb c 8202)
    || nat_eq c 8232
    || nat_eq c 8233
    || nat_eq c 8239
    || nat_eq c 8287
    || nat_eq c 12288

unfoldable pub trim_left : String → String
unfolding is_space
trim_left String.[] = ""
trim_left (String.◌∷◌ c s) =
    let rest = trim_left s in if is_space (code c) then rest else String.◌∷◌ c s

unfoldable pub trim_right : String → String
unfolding is_space
trim_right String.[] = ""
trim_right (String.◌∷◌ c s) =
    let rest = trim_right s in if is_space (code c) && rest == "" then "" else String.◌∷◌ c rest

-- `strings.TrimSpace`
unfoldable pub trim_space : String → String
unfolding trim_left trim_right
trim_space s = trim_right (trim_left s)

-- `strings.Split(doc, "\n")`
unfoldable pub split_lines : String → List String
unfolding push
split_lines String.[] = "" ∷ []
split_lines (String.◌∷◌ c s) =
    let rest = split_lines s in
    if is_newline (code c) then "" ∷ rest else push (String.◌∷◌ c String.[]) rest

-- `strings.HasPrefix(strings.TrimSpace(line), "#")`
unfoldable pub is_comment : String → Bool
unfolding trim_space strip_prefix
is_comment line = elim (strip_prefix "#" (trim_space line)) [ none ↦ false | some _ ↦ true ]

unfoldable pub join_kept : List String → String
unfolding is_comment
join_kept [] = ""
join_kept (line ∷ lines) =
    let rest = join_kept lines in if is_comment line then rest else line ++ "\n" ++ rest

unfoldable pub strip_comments : String → String
unfolding split_lines join_kept
strip_comments doc = join_kept (split_lines doc)
