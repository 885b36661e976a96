-- ===== src/Cli/Flagset.antt =====
-- cmd/krsm/main.go: `fs.Parse` of the flags of `check`, by the rules of Go's package flag, and the
-- dispatch of a command by `run`.
use Prim.Native.Char.{code}
use krsm.Prelude.{
  ℕ, String, Bool, true, false, Option, none, some, List, [], ◌∷◌, ◌==◌, ◌||◌, nat_eq, has_key,
  if◌then◌else◌, Result, ok, err,
}
use krsm.Scenario.{Scenario}
use krsm.Scope.{mode_audit}
use krsm.Cli.{CliError, LiveReader, Flags, Checked, exit_code, run_check}

-- What `fs.Parse` fails with: `flag.ErrHelp`, or any other error.
pub data FlagError : Type 0 where
  asks_help bad_flags : FlagError

-- What a word is to `parseOne`: the first argument behind the flags, the terminator, a flag that is
-- written wrong, or a flag with the value behind its equals sign.
pub data Word : Type 0 where
  argument terminator malformed : Word
  flag : String → Option String → Word

-- The text before the first equals sign, and what is behind it.
unfoldable pub cut_equals : String → String × Option String
cut_equals String.[] = ("", none)
cut_equals (String.◌∷◌ c s) =
    let rest = cut_equals s in
    if nat_eq (code c) b'=' then ("", some s) else (String.◌∷◌ c rest.0, rest.1)

-- The name behind the dashes, of which the first character is not looked at.
unfoldable pub named : String → Word
unfolding cut_equals
named String.[] = malformed
named (String.◌∷◌ c s) =
    if nat_eq (code c) b'-' || nat_eq (code c) b'='
    then malformed
    else flag (String.◌∷◌ c (cut_equals s).0) (cut_equals s).1

unfoldable pub word_of : String → Word
unfolding named
word_of String.[] = argument
word_of (String.◌∷◌ c String.[]) = argument
word_of (String.◌∷◌ c (String.◌∷◌ d s)) =
    if nat_eq (code c) b'-'
    then (if nat_eq (code d) b'-'
        then (if s == "" then terminator else named s)
        else named (String.◌∷◌ d s))
    else argument

-- `strconv.ParseBool`
unfoldable pub parse_bool : String → Option Bool
unfolding has_key
parse_bool s =
    if has_key ("1" ∷ "t" ∷ "T" ∷ "true" ∷ "TRUE" ∷ "True" ∷ []) s
    then some true
    else if has_key ("0" ∷ "f" ∷ "F" ∷ "false" ∷ "FALSE" ∷ "False" ∷ []) s
    then some false
    else none

-- What a flag does: it is set, it takes the next word, or it ends the parse.
pub data Step : Type 0 where
  set_to : Flags → Step
  takes_next : (String → Flags) → Step
  fails : FlagError → Step

abbrev pub text_flag : Option String → (String → Flags) → Step
text_flag none f = takes_next f
text_flag (some v) f = set_to (f v)

abbrev pub bool_flag : Option String → (Bool → Flags) → Step
bool_flag none f = set_to (f true)
bool_flag (some v) f = elim (parse_bool v) [ none ↦ fails bad_flags | some b ↦ set_to (f b) ]

-- The flags that `runCheck` defines.
unfoldable pub step_of : Flags → String → Option String → Step
unfolding parse_bool
step_of f name value =
    if name == "plain"
    then bool_flag value (λ b. record f { plain = b })
    else if name == "mode"
    then text_flag value (λ v. record f { mode = v })
    else if name == "context"
    then text_flag value (λ v. record f { context = v })
    else if name == "kubeconfig"
    then text_flag value (λ v. record f { kubeconfig = v })
    else if name == "n"
    then text_flag value (λ v. record f { namespace = v })
    else if name == "help" || name == "h"
    then fails asks_help
    else fails bad_flags

-- What one word makes of the flags.
abbrev pub step_by : Flags → Word → Option Step
step_by f (flag name value) = some (step_of f name value)
step_by f _ = none

-- The parse ends at this word, with the words that are left.
abbrev pub stop_at : Flags → Word → String → List String → Result FlagError Flags
stop_at f terminator a rest = ok (record f { args = rest })
stop_at f malformed a rest = err bad_flags
stop_at f _ a rest = ok (record f { args = a ∷ rest })

unfoldable pub parse_loop : Flags → List String → Result FlagError Flags
unfolding word_of step_of
parse_loop f [] = ok (record f { args = [] })
parse_loop f (a ∷ []) = elim (step_by f (word_of a)) [
  | none ↦ stop_at f (word_of a) a []
  | some (set_to g) ↦ ok (record g { args = [] })
  | some (takes_next g) ↦ err bad_flags
  | some (fails e) ↦ err e
]
parse_loop f (a ∷ b ∷ rest) = elim (step_by f (word_of a)) [
  | none ↦ stop_at f (word_of a) a (b ∷ rest)
  | some (set_to g) ↦ parse_loop g (b ∷ rest)
  | some (takes_next g) ↦ parse_loop (g b) rest
  | some (fails e) ↦ err e
]

abbrev pub default_flags : Flags
default_flags = record {
  plain = false;
  mode = mode_audit;
  context = "";
  kubeconfig = "";
  namespace = "";
  args = [];
}

unfoldable pub parse_flags : List String → Result FlagError Flags
unfolding parse_loop
parse_flags args = parse_loop default_flags args

-- What a run of the program ends with.
pub data Outcome : Type 0 where
  prints_version prints_usage prints_check_usage : Outcome
  unknown_command : String → Outcome
  flags_refused : Outcome
  ran_check : Checked → Outcome

-- `main`: the status that the process exits with.
unfoldable pub status : Outcome → ℕ
unfolding exit_code
status (unknown_command cmd) = 1
status flags_refused = 1
status (ran_check c) = exit_code c
status _ = 0

module _ (fuel : ℕ) (load : String → Result CliError Scenario)
    (nlr : String → String → Result CliError LiveReader) where
  -- `runCheck` with the parse of its flags.
  unfoldable pub check_command : List String → Option Outcome
  unfolding parse_flags run_check
  check_command args = elim (parse_flags args) [
    | err asks_help ↦ some prints_check_usage
    | err bad_flags ↦ some flags_refused
    | ok f ↦ elim (run_check fuel f load nlr) [ none ↦ none | some c ↦ some (ran_check c) ]
  ]

  -- `run`; without a word the command is help.
  unfoldable pub run : List String → Option Outcome
  unfolding check_command
  run [] = some prints_usage
  run (cmd ∷ args) =
      if cmd == "version" || cmd == "--version" || cmd == "-v"
      then some prints_version
      else if cmd == "help" || cmd == "--help" || cmd == "-h"
      then some prints_usage
      else if cmd == "check"
      then check_command args
      else some (unknown_command cmd)
