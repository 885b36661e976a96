-- ===== src/Cli.antt =====
-- cmd/krsm/main.go: the `check` command, behind the parsing of its flags by the package flag. Texts
-- of errors are left out; `none` means that the engine ran out of fuel.
pub mod Connect
pub mod Flagset
pub mod Run
pub mod Directory
pub mod Listed
pub mod Output
pub mod Shown
pub mod Target
pub mod Namespace
pub mod Status
use Prim.Native.Char.{code}
use krsm.Prelude.{
  Result, ok, err, ◌>>=◌, ℕ, String, Bool, true, false, not, ◌&&◌, ◌||◌, Option, none, some, List,
  [], ◌∷◌, ◌++◌, ◌==◌, nat_eq, has_key, if◌then◌else◌, cut, has_slash, strip_prefix,
}
use krsm.Selector.{is_empty}
use krsm.Model.{Ref, Action, Decision, Verb, delete, scale, restart, update, patch, no_gvk}
use krsm.Model.Clause.{ScopeClause}
use krsm.State.{State}
use krsm.Safe.{safe}
use krsm.Scenario.{Scenario}
use krsm.Scope.{Mode, mode_audit, mode_enforce, apply, derive, is_block}

-- The errors that end a check with status 1, one for each message.
pub data CliError : Type 0 where
  invalid_mode missing_directory unexpected_argument load_failed : CliError
  slash_in_namespace missing_namespace_value missing_target : CliError
  no_reader kind_unresolved read_failed : CliError
  invalid_target unsupported_verb unknown_verb nameless_target : CliError

-- The cases of the switch in `extractNamespace`.
pub data Arg : Type 0 where
  takes_value positional : Arg
  carries : String → Arg

unfoldable pub arg_of : String → Arg
unfolding strip_prefix
arg_of a = if a == "-n" || a == "--namespace" then takes_value else elim (strip_prefix "-n=" a) [
  | some v ↦ carries v
  | none ↦ elim (strip_prefix "--namespace=" a) [ some v ↦ carries v | none ↦ positional ]
]

-- `take`
unfoldable pub take : String → Result CliError String
unfolding has_slash
take v = if has_slash v then err slash_in_namespace else ok v

unfoldable pub extract_loop :
    List String → List String → String → Result CliError (List String × String)
unfolding arg_of take
extract_loop [] pos ns = ok (pos, ns)
extract_loop (a ∷ []) pos ns = elim (arg_of a) [
  | takes_value ↦ err missing_namespace_value
  | carries v ↦ take v >>= λ ns'. ok (pos, ns')
  | positional ↦ ok (pos ++ (a ∷ []), ns)
]
extract_loop (a ∷ b ∷ args) pos ns = elim (arg_of a) [
  | takes_value ↦ take b >>= λ ns'. extract_loop args pos ns'
  | carries v ↦ take v >>= λ ns'. extract_loop (b ∷ args) pos ns'
  | positional ↦ extract_loop (b ∷ args) (pos ++ (a ∷ [])) ns
]

unfoldable pub extract_namespace : List String → Result CliError (List String × String)
unfolding extract_loop
extract_namespace args = extract_loop args [] ""

unfoldable pub split_target : String → Result CliError (String × String)
unfolding cut
split_target target = elim (cut target) [
  | none ↦ err invalid_target
  | some (kind, name) ↦ if kind == "" || name == "" then err invalid_target else ok (kind, name)
]

abbrev pub live_verbs : List Verb
live_verbs = delete ∷ scale ∷ restart ∷ []

-- The action on a target that has no uid: the state resolves it by its name.
abbrev pub action_on : Verb → String → String → String → Action
action_on verb kind name namespace = record {
  verb = verb;
  target = record {
    gvk = record no_gvk { kind = kind };
    namespace = namespace;
    name = name;
    uid = "";
  };
  cascade = verb == delete;
  old = none;
  new = none;
}

unfoldable pub parse_action : String → String → String → String → Result CliError Action
unfolding has_key
parse_action verb kind name namespace =
    if not (has_key live_verbs verb)
    then (if verb == update || verb == patch then err unsupported_verb else err unknown_verb)
    else if kind == "" || name == ""
    then err nameless_target
    else ok (action_on verb kind name namespace)

unfoldable pub parse_mode : String → Result CliError Mode
parse_mode s = if s == mode_audit || s == mode_enforce then ok s else err invalid_mode

-- The seam to a live cluster: the canonical kind of a token, and a snapshot of the state.
pub record LiveReader : Type 0 where
  pub resolve_kind : String → Result CliError String
  pub state : Result CliError State

-- What a check reports: the arguments of `writeReport`.
pub record Report : Type 0 where
  pub action : Action
  pub clauses : List ScopeClause
  pub scope_source : String
  pub decision : Decision
  pub plain : Bool

-- A check ends with an error, or with a report, whose decision then gives the status.
pub data Checked : Type 0 where
  failed : CliError → Checked
  reported : Report → Checked

-- The status with which `main` exits: `errBlocked` is 2, any other error 1.
unfoldable pub exit_code : Checked → ℕ
exit_code (failed e) = 1
exit_code (reported r) = if is_block r.decision.verdict then 2 else 0

pub record LiveOpts : Type 0 where
  pub context_name : String
  pub kubeconfig : String
  pub namespace : String
  pub mode : Mode
  pub plain : Bool

-- The shared end of both paths: `mode.Apply(closure.Safe(…))` and the report of it.
unfoldable pub report_of :
    ℕ → State → Action → List ScopeClause → String → Mode → Bool → Option Checked
unfolding safe apply
report_of fuel s a clauses source mode plain = elim (safe fuel s a clauses) [
  | none ↦ none
  | some d ↦ some (
      reported (record {
        action = a;
        clauses = clauses;
        scope_source = source;
        decision = apply mode d;
        plain = plain;
      }))
]

-- The two positional arguments of the live path.
abbrev pub verb_and_target : List String → Result CliError (String × String)
verb_and_target (verb ∷ target ∷ []) = ok (verb, target)
verb_and_target (verb ∷ target ∷ other ∷ more) = err unexpected_argument
verb_and_target _ = err missing_target

-- What `runCheckLive` works out of the arguments and the reader before it evaluates the scope.
unfoldable pub live_request :
    List String
    → LiveOpts
    → (String → String → Result CliError LiveReader)
    → Result CliError (Action × State)
unfolding extract_namespace split_target parse_action
live_request args o new_live_reader = do
  (words, ns) ← extract_namespace args
  (verb, target) ← verb_and_target words
  reader ← new_live_reader o.kubeconfig o.context_name
  (kind_token, name) ← split_target target
  kind ← reader.resolve_kind kind_token
  action ← parse_action verb kind name (if ns == "" then o.namespace else ns)
  state ← reader.state
  ok (action, state)

unfoldable pub run_check_live :
    ℕ → List String → LiveOpts → (String → String → Result CliError LiveReader) → Option Checked
unfolding live_request report_of derive
run_check_live fuel args o new_live_reader = elim (live_request args o new_live_reader) [
  | err e ↦ some (failed e)
  | ok (action, state) ↦
      report_of fuel state action (derive action.target).clauses "derived (ownership-tree)" o.mode
        o.plain
]

-- The flags as the package flag leaves them, with the arguments behind them.
pub record Flags : Type 0 where
  pub plain : Bool
  pub mode : String
  pub context : String
  pub kubeconfig : String
  pub namespace : String
  pub args : List String

-- The one directory of the scenario path.
abbrev pub directory_of : List String → Result CliError String
directory_of [] = err missing_directory
directory_of (dir ∷ []) = ok dir
directory_of (dir ∷ other ∷ more) = err unexpected_argument

-- `runCheck`, behind `fs.Parse`.
unfoldable pub run_check :
    ℕ
    → Flags
    → (String → Result CliError Scenario)
    → (String → String → Result CliError LiveReader)
    → Option Checked
unfolding run_check_live report_of parse_mode
run_check fuel f load new_live_reader = elim (parse_mode f.mode) [
  | err e ↦ some (failed e)
  | ok mode ↦ elim (not (f.context == "") || not (f.kubeconfig == "")) [
    | true ↦
        run_check_live fuel f.args
          (record {
            context_name = f.context;
            kubeconfig = f.kubeconfig;
            namespace = f.namespace;
            mode = mode;
            plain = f.plain;
          })
          new_live_reader
    | false ↦ elim (directory_of f.args >>= load) [
      | err e ↦ some (failed e)
      | ok sc ↦ report_of fuel sc.state sc.action sc.scope sc.scope_source mode f.plain
    ]
  ]
]
