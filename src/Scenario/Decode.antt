-- ===== src/Scenario/Decode.antt =====
-- `json.Unmarshal` into the raw types of internal/scenario/scenario.go that are read from a
-- `json.RawMessage`. A key names a field whatever its case; an unknown key is skipped; `null` leaves a
-- text or a struct as it is and empties a map, a slice or a pointer; `none` is an error.
use krsm.Prelude.{
  String, Option, none, some, List, [], ◌∷◌, lower_eq, if◌then◌else◌, insert, Json, null, string,
  object, array, pairs_of, items_of,
}
use krsm.Selector.{Labels, SelectorRequirement, entries}
use krsm.Scenario.{RawRef, RawScopeClause, RawAllowClause}

abbrev pub decode_text : String → Json → Option String
decode_text old null = some old
decode_text old (string s) = some s
decode_text old _ = none

-- The entries of a map are set one after the other; a `null` is the empty text.
unfoldable pub decode_entries : List (String × Json) → Labels → Option Labels
unfolding insert
decode_entries [] m = some m
decode_entries ((k, v) ∷ ps) m = elim (decode_text "" v) [
  | none ↦ none
  | some s ↦ decode_entries ps (insert k s m)
]

-- `map[string]string`, `none` within for the nil map; an old map is added to.
unfoldable pub decode_map : Option Labels → Json → Option (Option Labels)
unfolding decode_entries pairs_of
decode_map old null = some none
decode_map old (object fs) = elim (decode_entries (pairs_of fs) (entries old)) [
  | none ↦ none
  | some m ↦ some (some m)
]
decode_map old _ = none

module _ {A : Type 0} (decode : A → Json → Option A) (zero_value : A) where
  -- An element is decoded into what the slice held in its place.
  unfoldable pub decode_items : List A → List Json → Option (List A)
  decode_items olds [] = some []
  decode_items [] (v ∷ vs) = elim (decode zero_value v) [
    | none ↦ none
    | some a ↦ elim (decode_items [] vs) [ none ↦ none | some rest ↦ some (a ∷ rest) ]
  ]
  decode_items (old ∷ olds) (v ∷ vs) = elim (decode old v) [
    | none ↦ none
    | some a ↦ elim (decode_items olds vs) [ none ↦ none | some rest ↦ some (a ∷ rest) ]
  ]

  unfoldable pub decode_slice : List A → Json → Option (List A)
  unfolding decode_items items_of
  decode_slice olds null = some []
  decode_slice olds (array vs) = decode_items olds (items_of vs)
  decode_slice olds _ = none

  -- A pointer: a missing value is a zero value before it is decoded into.
  unfoldable pub decode_pointer : Option A → Json → Option (Option A)
  decode_pointer old null = some none
  decode_pointer none v = elim (decode zero_value v) [ none ↦ none | some a ↦ some (some a) ]
  decode_pointer (some old) v = elim (decode old v) [ none ↦ none | some a ↦ some (some a) ]

-- One value set in a struct, if it is decoded.
abbrev pub set : {A S : Type 0} → Option A → (A → S) → Option S
set none f = none
set (some a) f = some (f a)

-- A struct, by what a key and its value do to it.
module _ {S : Type 0} (set_field : S → String → Json → Option S) where
  unfoldable pub decode_fields : S → List (String × Json) → Option S
  decode_fields s [] = some s
  decode_fields s ((k, v) ∷ ps) = elim (set_field s k v) [
    | none ↦ none
    | some s' ↦ decode_fields s' ps
  ]

  unfoldable pub decode_struct : S → Json → Option S
  unfolding decode_fields pairs_of
  decode_struct s null = some s
  decode_struct s (object fs) = decode_fields s (pairs_of fs)
  decode_struct s _ = none

abbrev pub no_raw_ref : RawRef
no_raw_ref = record { group = ""; version = ""; kind = ""; namespace = ""; name = "" }

unfoldable pub set_raw_ref : RawRef → String → Json → Option RawRef
unfolding lower_eq
set_raw_ref r k v =
    if lower_eq k "group"
    then set (decode_text r.group v) (λ s. record r { group = s })
    else if lower_eq k "version"
    then set (decode_text r.version v) (λ s. record r { version = s })
    else if lower_eq k "kind"
    then set (decode_text r.kind v) (λ s. record r { kind = s })
    else if lower_eq k "namespace"
    then set (decode_text r.namespace v) (λ s. record r { namespace = s })
    else if lower_eq k "name"
    then set (decode_text r.name v) (λ s. record r { name = s })
    else some r

unfoldable pub decode_raw_ref : RawRef → Json → Option RawRef
unfolding decode_struct set_raw_ref
decode_raw_ref = decode_struct set_raw_ref

unfoldable pub set_scope_clause : RawScopeClause → String → Json → Option RawScopeClause
unfolding lower_eq decode_pointer decode_raw_ref
set_scope_clause c k v =
    if lower_eq k "dim"
    then set (decode_text c.dim v) (λ s. record c { dim = s })
    else if lower_eq k "group"
    then set (decode_text c.group v) (λ s. record c { group = s })
    else if lower_eq k "version"
    then set (decode_text c.version v) (λ s. record c { version = s })
    else if lower_eq k "kind"
    then set (decode_text c.kind v) (λ s. record c { kind = s })
    else if lower_eq k "namespace"
    then set (decode_text c.namespace v) (λ s. record c { namespace = s })
    else if lower_eq k "name"
    then set (decode_text c.name v) (λ s. record c { name = s })
    else if lower_eq k "root"
    then set (decode_pointer decode_raw_ref no_raw_ref c.root v) (λ r. record c { root = r })
    else some c

unfoldable pub decode_scope_clause : Json → Option RawScopeClause
unfolding decode_struct set_scope_clause
decode_scope_clause = decode_struct set_scope_clause (record {
  dim = "";
  group = "";
  version = "";
  kind = "";
  namespace = "";
  name = "";
  root = none;
})

unfoldable pub set_allow_clause : RawAllowClause → String → Json → Option RawAllowClause
unfolding lower_eq decode_raw_ref
set_allow_clause c k v =
    if lower_eq k "dim"
    then set (decode_text c.dim v) (λ s. record c { dim = s })
    else if lower_eq k "gvk"
    then set (decode_raw_ref c.gvk v) (λ r. record c { gvk = r })
    else if lower_eq k "namespace"
    then set (decode_text c.namespace v) (λ s. record c { namespace = s })
    else if lower_eq k "name"
    then set (decode_text c.name v) (λ s. record c { name = s })
    else some c

unfoldable pub decode_allow_clause : Json → Option RawAllowClause
unfolding decode_struct set_allow_clause
decode_allow_clause =
    decode_struct set_allow_clause
      (record { dim = ""; gvk = no_raw_ref; namespace = ""; name = "" })

-- The struct that `matchLabels` decodes its wrapper into.
pub record Wrapper : Type 0 where
  pub match_labels : Option Labels
  pub match_expressions : List SelectorRequirement

abbrev pub no_requirement : SelectorRequirement
no_requirement = record { key = ""; operator = ""; values = [] }

unfoldable pub set_requirement : SelectorRequirement → String → Json → Option SelectorRequirement
unfolding lower_eq decode_slice
set_requirement r k v =
    if lower_eq k "key"
    then set (decode_text r.key v) (λ s. record r { key = s })
    else if lower_eq k "operator"
    then set (decode_text r.operator v) (λ s. record r { operator = s })
    else if lower_eq k "values"
    then set (decode_slice decode_text "" r.values v) (λ vs. record r { values = vs })
    else some r

unfoldable pub decode_requirement : SelectorRequirement → Json → Option SelectorRequirement
unfolding decode_struct set_requirement
decode_requirement = decode_struct set_requirement

unfoldable pub set_wrapper : Wrapper → String → Json → Option Wrapper
unfolding lower_eq decode_map decode_slice decode_requirement
set_wrapper w k v =
    if lower_eq k "matchLabels"
    then set (decode_map w.match_labels v) (λ m. record w { match_labels = m })
    else if lower_eq k "matchExpressions"
    then set (decode_slice decode_requirement no_requirement w.match_expressions v)
        (λ rs. record w { match_expressions = rs })
    else some w

unfoldable pub decode_wrapper : Json → Option Wrapper
unfolding decode_struct set_wrapper
decode_wrapper = decode_struct set_wrapper (record { match_labels = none; match_expressions = [] })
