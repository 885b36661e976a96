-- ===== src/Cluster/Listable.antt =====
-- internal/cluster/reader.go: which resources are listed, and the set of the targets seen.
use krsm.Prelude.{
  String, Bool, true, false, not, ◌&&◌, List, [], ◌∷◌, ◌≡◌, refl, sym, ap, ◌⊎◌, inl, inr, ◌↔◌,
  eq_iff, if◌then◌else◌, ◌∈◌, arith, Bool-cases, has_key, has_key_iff, has_slash,
}
use krsm.Cluster.Reader.{
  ApiResource, GroupVersion, Gvr, read_targets, built_in_groups, supports_list, gvr_eq, has_gvr,
  is_listed,
}

-- A resource that a state is read from: no subresource, of a kind that the relations go through or of
-- a group that is not built in, and one that can be listed as far as discovery tells.
pub record Listable (gv : GroupVersion) (res : ApiResource) : Type 0 where
  pub whole : has_slash res.name ≡ false
  pub relevant : (res.kind ∈ read_targets) ⊎ (¬ (gv.group ∈ built_in_groups))
  pub listable : (res.verbs ≡ []) ⊎ ("list" ∈ res.verbs)

supports_list_iff : (vs : List String) → (supports_list vs ≡ true) ↔ ((vs ≡ []) ⊎ ("list" ∈ vs))
unfolding supports_list
supports_list_iff [] = (λ h. inl refl, λ h. refl)
supports_list_iff (v ∷ vs) = (
  λ h. inr ((has_key_iff (v ∷ vs) "list").0 h),
  λ h. elim h [ inl e ↦ absurd (cc) | inr m ↦ (has_key_iff (v ∷ vs) "list").1 m ],
)

three_tests :
    (a b c d : Bool)
    → (if a then false else if not b && c then false else d) ≡ true
    → (a ≡ false) × ((b ≡ true) ⊎ (c ≡ false)) × (d ≡ true)
three_tests a b c d h = ground arith

pub is_listed-Listable :
    (gv : GroupVersion) (res : ApiResource) → (is_listed gv res ≡ true) ↔ Listable gv res
unfolding is_listed
is_listed-Listable gv res = (forth, back)
  where
    forth : is_listed gv res ≡ true → Listable gv res
    forth h =
        let (w, r, l) =
          three_tests (has_slash res.name) (has_key read_targets res.kind)
            (has_key built_in_groups gv.group) (supports_list res.verbs) h in
        record {
          whole = w;
          relevant = elim r [
            | inl e ↦ inl ((has_key_iff read_targets res.kind).0 e)
            | inr e ↦ inr (λ m. cc (e, (has_key_iff built_in_groups gv.group).1 m))
          ];
          listable = (supports_list_iff res.verbs).0 l;
        }

    back : Listable gv res → is_listed gv res ≡ true
    back l =
        let s = (supports_list_iff res.verbs).1 l.listable in
        elim l.relevant [
          | inl m ↦ rw (l.whole, (has_key_iff read_targets res.kind).1 m) s
          | inr n ↦
              let out = Bool-cases (has_key built_in_groups gv.group) in
              elim out [
                | inl m ↦ absurd (n ((has_key_iff built_in_groups gv.group).0 m))
                | inr m ↦ elim (Bool-cases (has_key read_targets res.kind)) [
                  | inl e ↦ rw (l.whole, e) s
                  | inr e ↦ rw (l.whole, e, m) s
                ]
              ]
        ]

pub gvr_eq_iff : (a b : Gvr) → (gvr_eq a b ≡ true) ↔ (b ≡ a)
unfolding gvr_eq
gvr_eq_iff a b = (
  λ h.
      let g : a.group ≡ b.group = (eq_iff a.group b.group).0 (ground (arith, h)) in
      let v : a.version ≡ b.version = (eq_iff a.version b.version).0 (ground (arith, h)) in
      let r : a.resource ≡ b.resource = (eq_iff a.resource b.resource).0 (ground (arith, h)) in
      λ i. record { group = sym g i; version = sym v i; resource = sym r i },
  λ e. ground (
    arith,
    (eq_iff a.group b.group).1 (sym (ap (λ (x : Gvr). x.group) e)),
    (eq_iff a.version b.version).1 (sym (ap (λ (x : Gvr). x.version) e)),
    (eq_iff a.resource b.resource).1 (sym (ap (λ (x : Gvr). x.resource) e)),
  ),
)

pub has_gvr_iff : (gs : List Gvr) (g : Gvr) → (has_gvr gs g ≡ true) ↔ (g ∈ gs)
unfolding has_gvr
has_gvr_iff [] g = (λ h. absurd (cc), λ m. absurd m)
has_gvr_iff (h ∷ hs) g = ground (arith, gvr_eq_iff h g, has_gvr_iff hs g)
