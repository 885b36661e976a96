-- ===== src/Cluster/Targets.antt =====
-- internal/cluster/reader.go: what `selectTargets` lists, and the kinds that `ResolveKind` gives.
use krsm.Prelude.{
  none, some, List, [], ◌∷◌, ◌++◌, ◌≡◌, refl, sym, ap, ◌∙◌, ◌≢◌, ◌⊎◌, inl, inr, ◌↔◌, ◌∈◌, ∈-append,
  Distinct, subst, Bool-cases, Option-cases, ok, ok_injective,
}
use krsm.Cluster.Reader.{
  ApiResource, ApiResourceList, GroupVersion, Gvr, Client, has_gvr, is_listed, gvr_of, add_target,
  add_targets, select_loop, select_targets,
}
use krsm.Cluster.Listable.{Listable, is_listed-Listable, has_gvr_iff}

abbrev pub Makes : GroupVersion → ApiResource → Gvr → Type 0
Makes gv res g = Listable gv res × (gvr_of gv res ≡ g)

-- One of the resources gives the target.
abbrev Gives : GroupVersion → List ApiResource → Gvr → Type 0
Gives gv ress g = (res : ApiResource) × (res ∈ ress) × Makes gv res g

-- Among the lists that discovery returns, a resource of a list whose group and version parse gives
-- the target.
abbrev pub Selected : Client → List ApiResourceList → Gvr → Type 0
Selected client ls g =
    (l : ApiResourceList) × (gv : GroupVersion) × (res : ApiResource) × (l ∈ ls)
    × (client.parse_group_version l.group_version ≡ some gv)
    × (res ∈ l.resources)
    × Makes gv res g

Distinct-snoc : (out : List Gvr) (g : Gvr) → Distinct out → ¬ (g ∈ out) → Distinct (out ++ (g ∷ []))
Distinct-snoc [] g d n = (λ m. m, record {})
Distinct-snoc (x ∷ out) g (new, d) n = (
  λ m. elim ((∈-append x out (g ∷ [])).0 m) [
    | inl k ↦ new k
    | inr (inl e) ↦ n (inl (sym e))
    | inr (inr k) ↦ k
  ],
  Distinct-snoc out g d (λ m. n (inr m)),
)

-- One round adds the target of a listable resource, if it is not there.
add_target-∈ :
    (gv : GroupVersion) (res : ApiResource) (out : List Gvr) (g : Gvr)
    → (g ∈ add_target gv res out) ↔ ((g ∈ out) ⊎ Makes gv res g)
unfolding add_target
add_target-∈ gv res out g = elim (Bool-cases (is_listed gv res)) [
  | inr e ↦ rw e (
    λ m. inl m,
    λ w. elim w [ inl m ↦ m | inr (l, _) ↦ absurd (cc (e, (is_listed-Listable gv res).1 l)) ],
  )
  | inl e ↦ elim (Bool-cases (has_gvr out (gvr_of gv res))) [
    | inl h ↦
        rw (e, h)
          (
            λ m. inl m,
            λ w. elim w [
              | inl m ↦ m
              | inr (_, same) ↦ subst (λ x. x ∈ out) same ((has_gvr_iff out (gvr_of gv res)).0 h)
            ],
          )
    | inr h ↦
        rw (e, h)
          (
            λ m. elim ((∈-append g out (gvr_of gv res ∷ [])).0 m) [
              | inl k ↦ inl k
              | inr (inl same) ↦ inr ((is_listed-Listable gv res).0 e, sym same)
              | inr (inr k) ↦ absurd k
            ],
            λ w.
                (∈-append g out (gvr_of gv res ∷ [])).1
                  (elim w [ inl m ↦ inl m | inr (_, same) ↦ inr (inl (sym same)) ]),
          )
  ]
]

add_target-Distinct :
    (gv : GroupVersion) (res : ApiResource) (out : List Gvr)
    → Distinct out
    → Distinct (add_target gv res out)
unfolding add_target
add_target-Distinct gv res out d = elim (Bool-cases (is_listed gv res)) [
  | inr e ↦ rw e d
  | inl e ↦ elim (Bool-cases (has_gvr out (gvr_of gv res))) [
    | inl h ↦ rw (e, h) d
    | inr h ↦
        rw (e, h)
          (Distinct-snoc out (gvr_of gv res) d (λ m. cc (h, (has_gvr_iff out (gvr_of gv res)).1 m)))
  ]
]

add_targets-∈ :
    (gv : GroupVersion) (ress : List ApiResource) (out : List Gvr) (g : Gvr)
    → (g ∈ add_targets gv ress out) ↔ ((g ∈ out) ⊎ Gives gv ress g)
unfolding add_targets
add_targets-∈ gv [] out g = (λ m. inl m, λ w. elim w [ inl m ↦ m | inr (res, k, _) ↦ absurd k ])
add_targets-∈ gv (res ∷ ress) out g =
    let (there, back) = add_targets-∈ gv ress (add_target gv res out) g in
    let (into, from) = add_target-∈ gv res out g in
    (
      λ m. elim (there m) [
        | inr (r, k, w) ↦ inr (r, inr k, w)
        | inl k ↦ elim (into k) [ inl j ↦ inl j | inr w ↦ inr (res, inl refl, w) ]
      ],
      λ w. elim w [
        | inl m ↦ back (inl (from (inl m)))
        | inr (r, inl e, w') ↦ back (inl (from (inr (subst (λ x. Makes gv x g) e w'))))
        | inr (r, inr k, w') ↦ back (inr (r, k, w'))
      ],
    )

add_targets-Distinct :
    (gv : GroupVersion) (ress : List ApiResource) (out : List Gvr)
    → Distinct out
    → Distinct (add_targets gv ress out)
unfolding add_targets
add_targets-Distinct gv [] out d = d
add_targets-Distinct gv (res ∷ ress) out d =
    add_targets-Distinct gv ress (add_target gv res out) (add_target-Distinct gv res out d)

module _ (client : Client) where
  select_loop_exact :
      (ls : List ApiResourceList) (out ts : List Gvr)
      → Distinct out
      → select_loop client ls out ≡ ok ts
      → Distinct ts × ((g : Gvr) → (g ∈ ts) ↔ ((g ∈ out) ⊎ Selected client ls g))
  unfolding select_loop
  select_loop_exact [] out ts d h =
      let e = ok_injective out ts h in
      (
        subst Distinct e d,
        λ g. (
          λ m. inl (subst (λ l. g ∈ l) (sym e) m),
          λ w. elim w [ inl m ↦ subst (λ l. g ∈ l) e m | inr (l, gv, res, k, _, _, _) ↦ absurd k ],
        ),
      )
  select_loop_exact (l ∷ ls) out ts d h =
      elim (Option-cases (client.parse_group_version l.group_version)) [
        | inl e ↦ absurd (cc (rw (select_loop, e) at h))
        | inr (gv, e) ↦
            let (d', w) =
              select_loop_exact ls (add_targets gv l.resources out) ts
                (add_targets-Distinct gv l.resources out d) (rw (select_loop, e) at h) in
            (d', λ g. joined gv e g (w g))
      ]
    where
      joined :
          (gv : GroupVersion)
          → client.parse_group_version l.group_version ≡ some gv
          → (g : Gvr) → (g ∈ ts) ↔ ((g ∈ add_targets gv l.resources out) ⊎ Selected client ls g)
          → (g ∈ ts) ↔ ((g ∈ out) ⊎ Selected client (l ∷ ls) g)
      joined gv e g (there, back) =
          let (into, from) = add_targets-∈ gv l.resources out g in
          (
            λ m. elim (there m) [
              | inr (l', gv', res, k, e', m', w) ↦ inr (l', gv', res, inr k, e', m', w)
              | inl k ↦ elim (into k) [
                | inl j ↦ inl j
                | inr (res, k', w) ↦ inr (l, gv, res, inl refl, e, k', w)
              ]
            ],
            λ w. elim w [
              | inl m ↦ back (inl (from (inl m)))
              | inr (l', gv', res, inr k, e', m', w') ↦ back (inr (l', gv', res, k, e', m', w'))
              | inr (l', gv', res, inl p, e', k, w') ↦
                  let same : some gv' ≡ some gv =
                    sym e'
                    ∙ ap (λ (x : ApiResourceList). client.parse_group_version x.group_version) p
                    ∙ e in
                  let v : gv' ≡ gv = cc in
                  back (
                    inl (
                      from (
                        inr (
                          res,
                          subst (λ (x : ApiResourceList). res ∈ x.resources) p k,
                          subst (λ x. Makes x res g) v w',
                        ))))
            ],
          )

  -- The targets that `selectTargets` returns are, each once, exactly those of a resource of the
  -- discovered lists that is no subresource, is of a kind that is read or of a group that is not
  -- built in, and has no verbs or the verb list among them.
  pub select_targets_exact :
      (ls : List ApiResourceList) (ts : List Gvr)
      → select_targets client ls ≡ ok ts
      → Distinct ts × ((g : Gvr) → (g ∈ ts) ↔ Selected client ls g)
  unfolding select_targets
  select_targets_exact ls ts h =
      let (d, w) = select_loop_exact ls [] ts (record {}) h in
      (d, λ g. (λ m. elim ((w g).0 m) [ inl k ↦ absurd k | inr s ↦ s ], λ s. (w g).1 (inr s)))

  select_loop_total :
      (ls : List ApiResourceList) (out : List Gvr)
      → ((l : ApiResourceList) → l ∈ ls → client.parse_group_version l.group_version ≢ none)
      → (ts : List Gvr) × (select_loop client ls out ≡ ok ts)
  unfolding select_loop
  select_loop_total [] out h = (out, refl)
  select_loop_total (l ∷ ls) out h =
      elim (Option-cases (client.parse_group_version l.group_version)) [
        | inl e ↦ absurd (h l (inl refl) e)
        | inr (gv, e) ↦
            rw (select_loop, e)
              (select_loop_total ls (add_targets gv l.resources out) (λ x m. h x (inr m)))
      ]

  pub select_targets_total :
      (ls : List ApiResourceList)
      → ((l : ApiResourceList) → l ∈ ls → client.parse_group_version l.group_version ≢ none)
      → (ts : List Gvr) × (select_targets client ls ≡ ok ts)
  unfolding select_targets
  select_targets_total ls h = select_loop_total ls [] h
