-- ===== src/Cluster/Total.antt =====
-- internal/cluster: when `BuildObjects` and `State` of a reader succeed.
use krsm.Prelude.{
  String, none, some, List, [], ◌∷◌, ◌≡◌, refl, ap, ◌∙◌, ◌≢◌, inl, inr, ◌∈◌, ok, >>=-ok, subst,
  Fields,
}
use krsm.Model.{Object}
use krsm.State.{State, scan_state, new_scan_state}
use krsm.Cluster.{Unstructured, nested_string}
use krsm.Cluster.Strings.{nested_string-TextAt}
use krsm.Cluster.Buildable.{Buildable, kind_name_total, selector_from_unstructured_total}
use krsm.Cluster.Build.{
  ScopeInfo, build_one, build_loop, build_objects, new_name_uid_index, index_loop, index_entry,
  object_of,
}
use krsm.Cluster.References.{NameUidIndex}
use krsm.Cluster.Reader.{
  ApiResourceList, Gvr, Client, discovered, select_targets, scope_from_lists, list_all, wrap_build,
  read_state,
}
use krsm.Cluster.Targets.{Selected, select_targets_exact, select_targets_total}
use krsm.Cluster.Live.{ReadFrom, read_state-ReadFrom, ListsAll-∈, list_all-ListsAll, list_all_total}

module _ (api : Unstructured) (scope : ScopeInfo) where
  index_loop_total :
      (objs : List Fields) (ix : NameUidIndex)
      → ((o : Fields) → o ∈ objs → Buildable api o)
      → (ix' : NameUidIndex) × (index_loop api scope objs ix ≡ ok ix')
  unfolding index_loop
  index_loop_total [] ix h = (ix, refl)
  index_loop_total (o ∷ objs) ix h =
      let kn : String × String =
        (nested_string api o ("kind" ∷ []), nested_string api o ("metadata" ∷ "name" ∷ [])) in
      rw (kind_name_total api o (h o (inl refl)))
        (index_loop_total objs (index_entry api scope o kn ix) (λ x m. h x (inr m)))

  build_loop_total :
      (ix : NameUidIndex) (objs : List Fields)
      → ((o : Fields) → o ∈ objs → Buildable api o)
      → (out : List Object) × (build_loop api scope ix objs ≡ ok out)
  unfolding build_loop build_one
  build_loop_total ix [] h = ([], refl)
  build_loop_total ix (o ∷ objs) h =
      let w = h o (inl refl) in
      let kind = nested_string api o ("kind" ∷ []) in
      let name = nested_string api o ("metadata" ∷ "name" ∷ []) in
      let (sel, f) =
        selector_from_unstructured_total api o kind
          (w.operates kind (nested_string-TextAt api o ("kind" ∷ []))) in
      let e = kind_name_total api o w in
      let (rest, g) = build_loop_total ix objs (λ x m. h x (inr m)) in
      (object_of api scope ix o name sel ∷ rest, rw (e, f, g))

  pub build_objects_total :
      (objs : List Fields)
      → ((o : Fields) → o ∈ objs → Buildable api o)
      → (out : List Object) × (build_objects api scope objs ≡ ok out)
  unfolding build_objects new_name_uid_index
  build_objects_total objs h =
      let (ix, e) = index_loop_total objs [] h in rw e (build_loop_total ix objs h)

-- Discovery answers, every group and version parses, every selected target can be listed, and every
-- item has a kind, a name and no unknown operator in its selector. Whether the scope of its kind is
-- discovered does not matter.
pub record Readable (client : Client) (api : Unstructured) (ls : List ApiResourceList)
    : Type 0 where
  pub answers : client.server_resources ≡ some ls
  pub parses : (l : ApiResourceList) → l ∈ ls → client.parse_group_version l.group_version ≢ none
  pub lists : (g : Gvr) → Selected client ls g → client.list g ≢ none
  pub builds :
      (g : Gvr) (items : List Fields) (o : Fields)
      → Selected client ls g
      → client.list g ≡ some items
      → o ∈ items
      → Buildable api o

-- Step by step.
read_state_run :
    (client : Client) (api : Unstructured) (ls : List ApiResourceList) (ts : List Gvr)
    (objs : List Fields) (built : List Object)
    → discovered client ≡ ok ls
    → select_targets client ls ≡ ok ts
    → list_all client ts [] ≡ ok objs
    → build_objects api (scope_from_lists client ls) objs ≡ ok built
    → read_state client api ≡ ok (scan_state (new_scan_state built))
unfolding read_state
read_state_run client api ls ts objs built d e f b =
    >>=-ok (discovered client) _ ls d
    ∙ >>=-ok (select_targets client ls) _ ts e
    ∙ >>=-ok (list_all client ts []) _ objs f
    ∙ >>=-ok (wrap_build (build_objects api (scope_from_lists client ls) objs)) _ built
        (ap wrap_build b)

-- If discovery answers, every group and version parses, every selected target can be listed, and
-- every listed item has a kind, a name and, unless it is a Service, no unknown operator in its
-- selector, then `State` returns a state, that of the objects built from all listed items. Whether
-- the scope of the kind of an item is known is no premise: an item of an unknown scope is built as
-- a namespaced one.
pub read_state_live :
    (client : Client) (api : Unstructured) (ls : List ApiResourceList)
    → Readable client api ls
    → (s : State) × (read_state client api ≡ ok s) × ReadFrom client api s
read_state_live client api ls r =
    let (ts, e) = select_targets_total client ls r.parses in
    let exact = (select_targets_exact client ls ts e).1 in
    let (objs, f) = list_all_total client ts [] (λ t m. r.lists t ((exact t).0 m)) in
    let (rest, w, same) = list_all-ListsAll client ts [] objs f in
    let (built, b) = build_objects_total api (scope_from_lists client ls) objs (λ o m.
      let (t, items, k, l, j) = (ListsAll-∈ client ts rest o w).0 (subst (λ x. o ∈ x) same m) in
      r.builds t items o ((exact t).0 k) l j) in
    let run = read_state_run client api ls ts objs built (rw r.answers) e f b in
    let state = scan_state (new_scan_state built) in
    (state, run, read_state-ReadFrom client api state run)
