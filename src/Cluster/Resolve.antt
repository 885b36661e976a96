-- ===== src/Cluster/Resolve.antt =====
-- internal/cluster/reader.go: `ResolveKind`.
use krsm.Prelude.{
  String, true, false, none, some, List, [], ◌∷◌, ◌++◌, ◌∙◌, ◌≡◌, refl, ap, ◌⊎◌, inl, inr, ◌∈◌,
  subst, ◌↔◌, ◌≢◌, ◌==◌, ne, eq_iff, SameLetters, lower_eq, lower_eq_iff, Bool-cases, Option-cases,
  has_slash, ok, err,
}
use krsm.Cluster.Reader.{
  ApiResource, ApiResourceList, Client, names_resource, resolve_in, resolve_lists, resolve_kind,
  unknown_kind,
}

-- The token is, whatever the case of its letters, the kind, the plural or the singular name of the
-- resource, if it has one.
abbrev pub Names : String → ApiResource → Type 0
Names token res =
    SameLetters token res.kind
    ⊎ (SameLetters token res.name
        ⊎ ((res.singular_name ≢ "") × SameLetters token res.singular_name))

-- The token names the resource, which is no subresource.
abbrev pub Named : String → ApiResource → Type 0
Named token res = (has_slash res.name ≡ false) × Names token res

names_resource_iff :
    (token : String) (res : ApiResource) → (names_resource token res ≡ true) ↔ Names token res
unfolding names_resource
names_resource_iff token res = elim (Bool-cases (lower_eq token res.kind)) [
  | inl k ↦ (λ h. inl ((lower_eq_iff token res.kind).0 k), λ w. rw (names_resource, k))
  | inr k ↦ elim (Bool-cases (lower_eq token res.name)) [
    | inl n ↦ (λ h. inr (inl ((lower_eq_iff token res.name).0 n)), λ w. rw (names_resource, k, n))
    | inr n ↦ elim (Bool-cases (res.singular_name == "")) [
      | inl e ↦ (
        λ h. absurd (cc (rw (names_resource, k, n, e) at h)),
        λ w. elim w [
          | inl x ↦ absurd (cc (k, (lower_eq_iff token res.kind).1 x))
          | inr (inl x) ↦ absurd (cc (n, (lower_eq_iff token res.name).1 x))
          | inr (inr (x, y)) ↦ absurd (x ((eq_iff res.singular_name "").0 e))
        ],
      )
      | inr e ↦ (
        λ h. inr (
            inr (
              ne res.singular_name "" e,
              (lower_eq_iff token res.singular_name).0 (rw (names_resource, k, n, e) at h),
            )),
        λ w. elim w [
          | inl x ↦ absurd (cc (k, (lower_eq_iff token res.kind).1 x))
          | inr (inl x) ↦ absurd (cc (n, (lower_eq_iff token res.name).1 x))
          | inr (inr (x, y)) ↦
              rw (names_resource, k, n, e) ((lower_eq_iff token res.singular_name).1 y)
        ],
      )
    ]
  ]
]

-- The kind of the first resource that the token names.
pub data First (token : String) : List ApiResource → String → Type 0 where
  found :
      {res : ApiResource} {ress : List ApiResource}
      → Named token res
      → First token (res ∷ ress) res.kind
  passed :
      {res : ApiResource} {ress : List ApiResource} {kind : String}
      → ¬ Named token res
      → First token ress kind
      → First token (res ∷ ress) kind

-- The resources of all lists, in order.
abbrev pub all_resources : List ApiResourceList → List ApiResource
all_resources [] = []
all_resources (l ∷ ls) = l.resources ++ all_resources ls

resolve_in-First :
    (token kind : String) (ress : List ApiResource)
    → resolve_in token ress ≡ some kind
    → First token ress kind
unfolding resolve_in
resolve_in-First token kind [] h = absurd (cc)
resolve_in-First token kind (res ∷ ress) h = elim (Bool-cases (has_slash res.name)) [
  | inl s ↦ passed (λ w. cc (s, w.0)) (resolve_in-First token kind ress (rw (resolve_in, s) at h))
  | inr s ↦ elim (Bool-cases (names_resource token res)) [
    | inr n ↦
        passed (λ w. cc (n, (names_resource_iff token res).1 w.1))
          (resolve_in-First token kind ress (rw (resolve_in, s, n) at h))
    | inl n ↦
        let same : some res.kind ≡ some kind = rw (resolve_in, s, n) at h in
        let same' : res.kind ≡ kind = cc in
        subst (First token (res ∷ ress)) same' (found (s, (names_resource_iff token res).0 n))
  ]
]

-- The resources of one list are searched before those of the next.
resolve_in-append :
    (token : String) (xs ys : List ApiResource)
    → resolve_in token (xs ++ ys)
      ≡ elim (resolve_in token xs) [ none ↦ resolve_in token ys | some kind ↦ some kind ]
unfolding resolve_in
resolve_in-append token [] ys = refl
resolve_in-append token (x ∷ xs) ys = elim (Bool-cases (has_slash x.name)) [
  | inl s ↦ rw (resolve_in, s) (resolve_in-append token xs ys)
  | inr s ↦ elim (Bool-cases (names_resource token x)) [
    | inr n ↦ rw (resolve_in, s, n) (resolve_in-append token xs ys)
    | inl n ↦ rw (resolve_in, s, n)
  ]
]

resolve_in-none :
    (token : String) (ress : List ApiResource)
    → resolve_in token ress ≡ none
    → (res : ApiResource) → res ∈ ress
    → ¬ Named token res
unfolding resolve_in
resolve_in-none token [] h res m w = absurd m
resolve_in-none token (x ∷ ress) h res m (s, w) =
    let n = (names_resource_iff token res).1 w in
    elim (Bool-cases (has_slash x.name)) [
      | inl e ↦ elim m [
        | inl p ↦ cc (e, s, ap (λ (y : ApiResource). has_slash y.name) p)
        | inr k ↦ resolve_in-none token ress (rw e at h) res k (s, w)
      ]
      | inr e ↦ elim (Bool-cases (names_resource token x)) [
        | inl f ↦ absurd (cc (rw (e, f) at h))
        | inr f ↦ elim m [
          | inl p ↦ cc (f, n, ap (names_resource token) p)
          | inr k ↦ resolve_in-none token ress (rw (e, f) at h) res k (s, w)
        ]
      ]
    ]

-- The token names no resource of the lists.
abbrev pub Unknown : String → List ApiResourceList → Type 0
Unknown token ls = (res : ApiResource) → res ∈ all_resources ls → ¬ Named token res

resolve_lists-all :
    (token : String) (ls : List ApiResourceList)
    → resolve_lists token ls
      ≡ elim (resolve_in token (all_resources ls)) [ none ↦ err unknown_kind | some kind ↦ ok kind ]
unfolding resolve_lists resolve_in
resolve_lists-all token [] = refl
resolve_lists-all token (l ∷ ls) = elim (Option-cases (resolve_in token l.resources)) [
  | inr (kind, e) ↦ rw (resolve_lists, resolve_in-append token l.resources (all_resources ls), e)
  | inl e ↦
      rw (resolve_lists, resolve_in-append token l.resources (all_resources ls), e)
        (resolve_lists-all token ls)
]

resolve_lists_exact :
    (token : String) (ls : List ApiResourceList)
    → ((kind : String) × (resolve_lists token ls ≡ ok kind) × First token (all_resources ls) kind)
      ⊎ ((resolve_lists token ls ≡ err unknown_kind) × Unknown token ls)
resolve_lists_exact token ls = elim (Option-cases (resolve_in token (all_resources ls))) [
  | inr (kind, e) ↦ inl (
    kind,
    resolve_lists-all token ls ∙ rw e refl,
    resolve_in-First token kind (all_resources ls) e,
  )
  | inl e ↦ inr (resolve_lists-all token ls ∙ rw e refl, resolve_in-none token (all_resources ls) e)
]

-- Where discovery answers, `ResolveKind` returns the kind of the first discovered resource, no
-- subresource, whose kind, plural or singular name, if it has one, is the token up to the case of
-- ASCII letters; or it returns the error on unknown kinds and there is no such resource.
pub resolve_kind_exact :
    (client : Client) (ls : List ApiResourceList) (token : String)
    → client.server_resources ≡ some ls
    → ((kind : String) × (resolve_kind client token ≡ ok kind)
        × First token (all_resources ls) kind)
      ⊎ ((resolve_kind client token ≡ err unknown_kind) × Unknown token ls)
unfolding resolve_kind
resolve_kind_exact client ls token h = rw h (resolve_lists_exact token ls)
