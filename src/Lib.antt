-- ===== src/Lib.antt =====
-- KRSM: a gate in front of the Kubernetes API that decides whether what an action affects stays in
-- the scope of a task. An action (a verb on a target, with payloads for a mutation) is classified;
-- its closure over the state of the cluster is walked; each member is matched against the clauses of
-- the scope; and the decision is Allow, Warn or Block. A contract is compiled to clauses, or a scope
-- is derived from the target, and a mode decides how a denial is reported.
--
-- The parts, by file:
--   Model, Model/Clause   closure/model.go: GVK, Ref (key, human), Object, Action, Decision, and
--                         ScopeClause with its constructors and Validate.
--   Selector              closure/selector.go: LabelSelector (isNil, equal, Matches) and
--                         SelectorRequirement (matches).
--   Classify              closure/classify.go: classify and the tests of the payloads.
--   State                 closure/state.go: the interface State as a record of its methods, and
--                         scanState with NewScanState, lookup and every method.
--   Closure               closure/closure.go: Closure (seeds, closure_loop, expand for the blocks 1
--                         to 6b, note for block 7), ExternalEffects, sortedRefs.
--   Safe                  closure/safe.go: Safe, stateResolver with its memo (Resolved), matchScope,
--                         gates, matchSelectorClause.
--   Glob                  path.Match of Go's standard library, which matchScope calls.
--   Scope                 scope/scope.go: Compile, compileClause, Derive, Mode.Apply.
--   Scenario              internal/scenario/scenario.go: the raw types, nsOf, uidOf and gvkOf, with
--                         Scenario/Decode for json.Unmarshal into the raw clauses and selectors,
--                         Scenario/Selectors (selectorFrom, matchLabels, scopeSelectorFrom),
--                         Scenario/References (crossRefsFrom, podSpecCrossRefs), Scenario/Documents
--                         (docSep, stripComments), Scenario/Manifests (parseCluster),
--                         Scenario/Clauses (parseAction, parseScope, parseTaskContract) and
--                         Scenario/Load (loadScope, Load).
--   Cluster               internal/cluster: the projection of unstructured objects (selector.go), with
--                         Cluster/References for crossref.go and index.go, Cluster/Build for build.go
--                         and Cluster/Reader for reader.go (State, ResolveKind, selectTargets,
--                         scopeFromLists).
--   Cli                   cmd/krsm/main.go: runCheck and runCheckLive behind the flags, parseMode,
--                         extractNamespace, splitTarget, parseAction and the exit status; Cli/Flagset is
--                         run and the parse of the flags, Cli/Connect newLiveReader and restConfig,
--                         Cli/Output writeReport.
--   Walk                  the queue loop that Closure and ownedSubtree have in common.
--   Prelude               lists, texts, association lists, results, JSON values and tests on native
--                         numbers.
-- The child modules hold the proofs, named for what they prove. Closure/Relation states what an
-- action affects as an inductive relation, and Safe/Covers what a clause covers; neither knows of
-- queues, visited sets or memos. The theorems on Closure and Safe are stated over any State whose
-- answers are in a list of references (State/Laws.IsOver), which the scanning state fills.
--
-- A Go map is an association list, in order of insertion, where Go ranges in no order; a missing key
-- reads as the empty text. A nil map is told from an empty one only in a selector, where the code
-- does. Errors are constructors without their texts. sort.Slice is an insertion sort: the code
-- leaves the order of equal names open.
--
-- Both queue loops take fuel, one unit for each resource that is expanded; a resource that was
-- visited costs none. One more unit than there are tracked resources is enough, the one for a target
-- or a root in a form of its own, since what is expanded has a key that was not visited before.
--
-- The parts meet in Cli: Cli/Directory runs a check on what Scenario loads, and Cli/Listed one on what
-- the reader of Cluster lists. Both end in State, Safe and Scope.
--
-- Parameters stand for what is not code of the repository. Cluster/Reader.Client is what the API
-- server answers to client-go (discovery, ParseGroupVersion, List), Cluster.Unstructured the reads of
-- nested fields of apimachinery, Scenario.Yaml the decoder of sigs.k8s.io/yaml into the raw types, and
-- Cli/Connect takes the loading of a kubeconfig and the construction of clients. The reads of files
-- are a function from names to contents, to a missing file, or to another error. A json.RawMessage is
-- the value that it holds. Names of fields and tokens are compared by the case of ASCII letters only.
--
-- Not modelled: Verdict.String, the texts of usage, help and errors, and whatever stands behind the
-- parameters. Tests, documents, the architecture guard and the deployment manifests have no logic of
-- the program.
pub mod Prelude
pub mod Walk
pub mod Selector
pub mod Model
pub mod Classify
pub mod State
pub mod Closure
pub mod Glob
pub mod Safe
pub mod Scope
pub mod Cluster
pub mod Scenario
pub mod Cli
pub mod Tests
