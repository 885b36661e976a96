-- ===== src/Cluster/Strings.antt =====
-- internal/cluster/build.go: what `nestedString` reads.
use krsm.Prelude.{String, none, some, List, ◌≡◌, ◌≢◌, Option-cases, Fields, subst, inl, inr}
use krsm.Cluster.{Unstructured, nested_string}

-- The text at a path, empty where apimachinery gives none.
pub data TextAt (api : Unstructured) (o : Fields) (path : List String) : String → Type 0 where
  text_there : {s : String} → api.string_field o path ≡ some s → TextAt api o path s
  no_text : api.string_field o path ≡ none → TextAt api o path ""

module _ (api : Unstructured) (o : Fields) (path : List String) where
  pub nested_string-TextAt : TextAt api o path (nested_string api o path)
  unfolding nested_string
  nested_string-TextAt = elim (Option-cases (api.string_field o path)) [
    | inl e ↦ rw (nested_string, e) (no_text e)
    | inr (s, e) ↦ rw (nested_string, e) (text_there e)
  ]

  -- A text that is not the empty one is read as such.
  pub nested_string_neq : ¬ TextAt api o path "" → nested_string api o path ≢ ""
  nested_string_neq n e = n (subst (TextAt api o path) e nested_string-TextAt)
