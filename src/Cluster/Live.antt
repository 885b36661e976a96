-- ===== src/Cluster/Live.antt =====
-- internal/cluster/reader.go: `State` and `ResolveKind`, which fail closed, and when they succeed.
use krsm.Prelude.{
  none, some, List, [], ◌∷◌, ◌++◌, ◌≡◌, refl, sym, ap, ◌∙◌, ◌≢◌, inl, inr, ◌↔◌, ◌∈◌, ∈-append,
  subst, Option-cases, Result, ok, err, ok_injective, append_assoc, append_nil, ◌>>=◌, >>=-eq-ok,
  Fields,
}
use krsm.Model.{Object}
use krsm.State.{State, scan_state, new_scan_state}
use krsm.Cluster.{Unstructured, BuildError}
use krsm.Cluster.Build.{build_objects}
use krsm.Cluster.Snapshot.{Mirrors, build_objects-Mirrors}
use krsm.Cluster.Reader.{
  ApiResourceList, Gvr, Client, ReadError, discovered, select_targets, scope_from_lists, list_all,
  wrap_build, read_state,
}

-- What the list calls of the targets return, one after the other.
pub data ListsAll (client : Client) : List Gvr → List Fields → Type 0 where
  nothing : ListsAll client [] []
  lists :
      {t : Gvr} {ts : List Gvr} {items rest : List Fields}
      → client.list t ≡ some items
      → ListsAll client ts rest
      → ListsAll client (t ∷ ts) (items ++ rest)

module _ (client : Client) where
  pub list_all-ListsAll :
      (ts : List Gvr) (acc objs : List Fields)
      → list_all client ts acc ≡ ok objs
      → (rest : List Fields) × ListsAll client ts rest × (objs ≡ (acc ++ rest))
  unfolding list_all
  list_all-ListsAll [] acc objs h =
      ([], nothing, sym (ok_injective acc objs h) ∙ sym (append_nil acc))
  list_all-ListsAll (t ∷ ts) acc objs h = elim (Option-cases (client.list t)) [
    | inl e ↦ absurd (cc (rw (list_all, e) at h))
    | inr (items, e) ↦
        let (rest, w, p) = list_all-ListsAll ts (acc ++ items) objs (rw (list_all, e) at h) in
        (items ++ rest, lists e w, p ∙ append_assoc acc items rest)
  ]

  pub list_all_total :
      (ts : List Gvr) (acc : List Fields)
      → ((t : Gvr) → t ∈ ts → client.list t ≢ none)
      → (objs : List Fields) × (list_all client ts acc ≡ ok objs)
  unfolding list_all
  list_all_total [] acc h = (acc, refl)
  list_all_total (t ∷ ts) acc h = elim (Option-cases (client.list t)) [
    | inl e ↦ absurd (h t (inl refl) e)
    | inr (items, e) ↦ rw (list_all, e) (list_all_total ts (acc ++ items) (λ x m. h x (inr m)))
  ]

  -- What is listed is an item of a target, and each item of a target is listed.
  pub ListsAll-∈ :
      (ts : List Gvr) (objs : List Fields) (o : Fields)
      → ListsAll client ts objs
      → (o ∈ objs) ↔ (
          (t : Gvr) × (items : List Fields) × (t ∈ ts) × (client.list t ≡ some items) × (o ∈ items))
  ListsAll-∈ _ _ o nothing = (λ m. absurd m, λ (t, items, k, _, _). absurd k)
  ListsAll-∈ _ _ o (lists {t} {ts} {items} {rest} e w) =
      let (there, back) = ListsAll-∈ ts rest o w in
      (
        λ m. elim ((∈-append o items rest).0 m) [
          | inl k ↦ (t, items, inl refl, e, k)
          | inr k ↦ let (t', is, k', e', m') = there k in (t', is, inr k', e', m')
        ],
        λ (t', is, k, e', m'). (∈-append o items rest).1 (elim k [
          | inl p ↦
              let same : some is ≡ some items = sym e' ∙ ap client.list p ∙ e in
              let q : is ≡ items = cc in inl (subst (λ l. o ∈ l) q m')
          | inr k' ↦ inr (back (t', is, k', e', m'))
        ]),
      )

  wrap_build-ok : {A : Type 0} (r : Result BuildError A) (a : A) → wrap_build r ≡ ok a → r ≡ ok a
  wrap_build-ok (ok b) a h = ap ok (ok_injective b a h)
  wrap_build-ok (err e) a h = absurd (cc)

  discovered-ok :
      (ls : List ApiResourceList) → discovered client ≡ ok ls → client.server_resources ≡ some ls
  discovered-ok ls h = elim (Option-cases client.server_resources) [
    | inl e ↦ absurd (cc (rw e at h))
    | inr (ls', e) ↦ e ∙ ap some (ok_injective ls' ls (rw e at h))
  ]

  -- A state that is read is the scanning state of objects that mirror what every target's list call
  -- returned, where the targets are selected from what discovery returned.
  pub record ReadFrom (api : Unstructured) (s : State) : Type 0 where
    pub resource_lists : List ApiResourceList
    pub discovery : client.server_resources ≡ some resource_lists
    pub targets : List Gvr
    pub selection : select_targets client resource_lists ≡ ok targets
    pub listed : List Fields
    pub listing : ListsAll client targets listed
    pub objects : List Object
    pub mirrors : Mirrors api (scope_from_lists client resource_lists) listed objects
    pub scanned : s ≡ scan_state (new_scan_state objects)

  pub read_state-ReadFrom :
      (api : Unstructured) (s : State) → read_state client api ≡ ok s → ReadFrom api s
  unfolding read_state
  read_state-ReadFrom api s h =
      let (ls, e, f) =
        >>=-eq-ok (discovered client) (λ ls. select_targets client ls >>= λ ts. listed_with ls ts) s
          h in
      let (ts, e', f') = >>=-eq-ok (select_targets client ls) (λ ts. listed_with ls ts) s f in
      let (objs, e'', f'') = >>=-eq-ok (list_all client ts []) (λ objs. built_with ls objs) s f' in
      let (built, b, g) =
        >>=-eq-ok (wrap_build (build_objects api (scope_from_lists client ls) objs))
          (λ bs. ok (scan_state (new_scan_state bs))) s f'' in
      let (rest, w, same) = list_all-ListsAll ts [] objs e'' in
      record {
        resource_lists = ls;
        discovery = discovered-ok ls e;
        targets = ts;
        selection = e';
        listed = objs;
        listing = subst (ListsAll client ts) (sym same) w;
        objects = built;
        mirrors =
            build_objects-Mirrors api (scope_from_lists client ls) objs built
              (wrap_build-ok (build_objects api (scope_from_lists client ls) objs) built b);
        scanned = sym (ok_injective (scan_state (new_scan_state built)) s g);
      }
    where
      built_with : List ApiResourceList → List Fields → Result ReadError State
      built_with ls objs =
          wrap_build (build_objects api (scope_from_lists client ls) objs) >>= λ bs.
          ok (scan_state (new_scan_state bs))

      listed_with : List ApiResourceList → List Gvr → Result ReadError State
      listed_with ls ts = list_all client ts [] >>= λ objs. built_with ls objs
