-- ===== src/Cluster/Index.antt =====
-- internal/cluster/index.go and `newNameUIDIndex`: the resolution of a name to a uid.
use krsm.Prelude.{
  String, true, List, [], ◌∷◌, ◌≡◌, refl, sym, ap, ◌∙◌, ◌≢◌, ◌↔◌, ◌⊎◌, inl, inr, ◌∈◌, arith, subst,
  eq_iff, ◌==◌, Bool-cases, ne, ok, Fields, >>=-eq-ok, ok_injective,
}
use krsm.Cluster.{Unstructured, nested_string}
use krsm.Cluster.References.{HumanKey, NameUidIndex, human_key_eq, index_lookup, uid_for}
use krsm.Cluster.Build.{
  ScopeInfo, kind_name, resolve_namespace, index_entry, index_loop, new_name_uid_index,
}
use krsm.Cluster.Snapshot.{kind_name_ok}

module _ (api : Unstructured) (scope : ScopeInfo) where
  abbrev pub uid_at : Fields → String
  uid_at o = nested_string api o ("metadata" ∷ "uid" ∷ [])

  -- The listed object has the kind, the namespace and the name.
  pub record Named (key : HumanKey) (o : Fields) : Type 0 where
    pub kind : nested_string api o ("kind" ∷ []) ≡ key.kind
    pub namespace : resolve_namespace api scope o ≡ key.namespace
    pub name : nested_string api o ("metadata" ∷ "name" ∷ []) ≡ key.name

  -- The text is the uid of a listed object of that name, or it is `fallback` and no listed object of
  -- that name has a uid.
  abbrev pub Resolves : List Fields → HumanKey → String → String → Type 0
  Resolves objs key fallback u =
      ((o : Fields) × (o ∈ objs) × Named key o × (uid_at o ≢ "") × (u ≡ uid_at o))
      ⊎ (((o : Fields) → o ∈ objs → Named key o → uid_at o ≡ "") × (u ≡ fallback))

  Named-iff :
      (key : HumanKey) (o : Fields) (k n : String)
      → k ≡ nested_string api o ("kind" ∷ [])
      → n ≡ nested_string api o ("metadata" ∷ "name" ∷ [])
      → (human_key_eq (record { kind = k; namespace = resolve_namespace api scope o; name = n }) key
          ≡ true)
        ↔ Named key o
  unfolding human_key_eq
  Named-iff key o k n e f = (
    λ h. record {
      kind = sym e ∙ ground (arith, eq_iff k key.kind);
      namespace = ground (arith, eq_iff (resolve_namespace api scope o) key.namespace);
      name = sym f ∙ ground (arith, eq_iff n key.name);
    },
    λ h.
        let a : k ≡ key.kind = e ∙ h.kind in
        let b = h.namespace in
        let c : n ≡ key.name = f ∙ h.name in
        ground (
          arith,
          a,
          b,
          c,
          eq_iff k key.kind,
          eq_iff (resolve_namespace api scope o) key.namespace,
          eq_iff n key.name,
        ),
  )

  -- One round: what the lookup gives behind the new entry.
  round :
      (key : HumanKey) (o : Fields) (k n : String) (ix : NameUidIndex)
      → k ≡ nested_string api o ("kind" ∷ [])
      → n ≡ nested_string api o ("metadata" ∷ "name" ∷ [])
      → Resolves
          (o ∷ [])
          key
          (index_lookup ix key)
          (index_lookup (index_entry api scope o (k, n) ix) key)
  unfolding index_lookup
  round key o k n ix e f = elim (Bool-cases (uid_at o == "")) [
    | inl u ↦ rw u (
        inr (
          λ x m _. elim m [
            | inl p ↦ ap uid_at p ∙ (eq_iff (uid_at o) "").0 u
            | inr no_more ↦ absurd no_more
          ],
          refl,
        ))
    | inr u ↦
        elim (Bool-cases (
          human_key_eq (record { kind = k; namespace = resolve_namespace api scope o; name = n })
            key)) [
              | inl h ↦
                  rw (u, index_lookup, h)
                    (inl (o, inl refl, (Named-iff key o k n e f).0 h, ne (uid_at o) "" u, refl))
              | inr h ↦
                  rw (u, index_lookup, h)
                    (inr (
                      λ x m w. elim m [
                        | inl p ↦
                            absurd (cc (h, (Named-iff key o k n e f).1 (subst (Named key) p w)))
                        | inr no_more ↦ absurd no_more
                      ],
                      refl,
                    ))
            ]
  ]

  loop-Resolves :
      (key : HumanKey) (objs : List Fields) (ix out : NameUidIndex)
      → index_loop api scope objs ix ≡ ok out
      → Resolves objs key (index_lookup ix key) (index_lookup out key)
  unfolding index_loop
  loop-Resolves key [] ix out h =
      inr (λ o m _. absurd m, ap (λ x. index_lookup x key) (sym (ok_injective ix out h)))
  loop-Resolves key (o ∷ objs) ix out h =
      let ((k, n), e, f) =
        >>=-eq-ok (kind_name api o)
          (λ kn. index_loop api scope objs (index_entry api scope o kn ix)) out h in
      let (sk, _, sn, _) = kind_name_ok api scope o k n e in
      join (round key o k n ix sk sn)
        (loop-Resolves key objs (index_entry api scope o (k, n) ix) out f)
    where
      join :
          {mid u : String}
          → Resolves (o ∷ []) key (index_lookup ix key) mid
          → Resolves objs key mid u
          → Resolves (o ∷ objs) key (index_lookup ix key) u
      join r (inl (x, m, w, q, p)) = inl (x, inr m, w, q, p)
      join (inl (x, inl m, w, q, p)) (inr (rest, p')) = inl (x, inl m, w, q, p' ∙ p)
      join (inl (x, inr no_more, w, q, p)) (inr (rest, p')) = absurd no_more
      join (inr (first, p)) (inr (rest, p')) =
          inr (λ x m w. elim m [ inl z ↦ first x (inl z) w | inr z ↦ rest x z w ], p' ∙ p)

  -- A lookup in the index of the listed objects gives the uid of a listed object of that kind,
  -- namespace and name; or it gives the empty text, and no listed object so named has a uid.
  pub uid_for-Resolves :
      (objs : List Fields) (ix : NameUidIndex) (kind namespace name : String)
      → new_name_uid_index api scope objs ≡ ok ix
      → Resolves objs
          (record { kind = kind; namespace = namespace; name = name })
          ""
          (uid_for ix kind namespace name)
  unfolding new_name_uid_index uid_for index_lookup
  uid_for-Resolves objs ix kind namespace name h =
      loop-Resolves (record { kind = kind; namespace = namespace; name = name }) objs [] ix h
