-- ===== src/Selector/Equal.antt =====
-- closure/selector.go: `equal`, and the selectors that it takes for one.
use krsm.Prelude.{
  ◌≤◌, String, Bool, true, false, some, List, [], ◌∷◌, ◌≡◌, refl, sym, ap, ◌∙◌, ◌≢◌, inl, inr, ◌↔◌,
  ◌∈◌, arith, ◌==◌, eq_iff, all_iff, Bool-cases, Option-cases, lookup, lookup_or, lookup-eq-some,
  lookup-of_mem, lookup-mem-keys, mem-keys, ∈-keys, keys, subst, length, length-map, Distinct,
  Distinct-length-le, has_key, has_key_iff, nat_eq_iff, Bool-ext,
}
use krsm.Selector.{
  Labels, SelectorRequirement, LabelSelector, entries, label_of, entries_agree, values_equal,
  expressions_equal, equal, matches,
}
use krsm.Selector.Matching.{matches_iff}

-- A Go map: no key twice. The second part excludes a label with the empty value.
abbrev pub IsMap : Labels → Type 0
IsMap m = Distinct (keys m)

abbrev pub NoEmptyValue : Labels → Type 0
NoEmptyValue m = (k v : String) → (k, v) ∈ m → v ≢ ""

-- As many distinct elements as the list that holds them are all of it.
all_of_as_many :
    (ks us : List String)
    → Distinct ks
    → ((k : String) → k ∈ ks → k ∈ us)
    → length us ≤ length ks
    → (u : String) → u ∈ us
    → u ∈ ks
all_of_as_many ks us d sub le u m = elim (Bool-cases (has_key ks u)) [
  | inl e ↦ (has_key_iff ks u).0 e
  | inr e ↦
      let new : ¬ (u ∈ ks) = λ k. cc (e, (has_key_iff ks u).1 k) in
      absurd (omega (arith, Distinct-length-le (u ∷ ks) us (new, d) both))
]
  where
    both : (k : String) → k ∈ u ∷ ks → k ∈ us
    both k (inl e) = subst (λ x. x ∈ us) (sym e) m
    both k (inr n) = sub k n

-- Reading a value that is not empty finds an entry.
label_of-present : (k v : String) (m : Labels) → v ≢ "" → label_of k m ≡ v → lookup k m ≡ some v
unfolding lookup_or
label_of-present k v m ne h = elim (Option-cases (lookup k m)) [
  | inl e ↦ absurd (ne (sym h ∙ rw (e, lookup_or)))
  | inr (w, e) ↦ e ∙ ap some (sym (read w e) ∙ h)
]
  where
    read : (w : String) → lookup k m ≡ some w → label_of k m ≡ w
    read w e = rw (e, lookup_or)

entries_agree_iff :
    (a b : Labels) → (entries_agree a b ≡ true) ↔ ((k v : String) → (k, v) ∈ a → label_of k b ≡ v)
unfolding entries_agree
entries_agree_iff a b = (
  λ h k v m. (eq_iff (label_of k b) v).0 ((all_iff agrees a).0 h (k, v) m),
  λ h. (all_iff agrees a).1 (λ p m. (eq_iff (label_of p.0 b) p.1).1 (h p.0 p.1 m)),
)
  where
    agrees : String × String → Bool
    agrees p = label_of p.0 b == p.1

-- Maps of one size that agree on the entries of the first have the same entries.
same_entries :
    (a b : Labels)
    → IsMap a
    → IsMap b
    → NoEmptyValue a
    → length a ≡ length b
    → entries_agree a b ≡ true
    → (k v : String) → ((k, v) ∈ a) ↔ ((k, v) ∈ b)
same_entries a b da db ne len h k v = (
  λ m. lookup-eq-some k v b (found k v m),
  λ m.
      let (w, e) =
        mem-keys k a (all_of_as_many (keys a) (keys b) da keys_in fewer k (∈-keys k v b m)) in
      let m' = lookup-eq-some k w a e in
      let same : some v ≡ some w = sym (lookup-of_mem k v b db m) ∙ found k w m' in
      let same' : w ≡ v = cc in subst (λ x. (k, x) ∈ a) same' m',
)
  where
    found : (j w : String) → (j, w) ∈ a → lookup j b ≡ some w
    found j w m = label_of-present j w b (ne j w m) ((entries_agree_iff a b).0 h j w m)

    keys_in : (j : String) → j ∈ keys a → j ∈ keys b
    keys_in j m =
        let (w, e) = mem-keys j a m in lookup-mem-keys j w b (found j w (lookup-eq-some j w a e))

    fewer : length (keys b) ≤ length (keys a)
    fewer = omega (
      arith,
      length-map (λ (p : String × String). p.0) a,
      length-map (λ (p : String × String). p.0) b,
      len,
    )

values_equal-path : (v w : List String) → values_equal v w ≡ true → v ≡ w
unfolding values_equal
values_equal-path [] [] h = refl
values_equal-path [] (y ∷ w) h = absurd (cc)
values_equal-path (x ∷ v) [] h = absurd (cc)
values_equal-path (x ∷ v) (y ∷ w) h = ground (arith, eq_iff x y, values_equal-path v w)

expressions_equal-path : (r q : List SelectorRequirement) → expressions_equal r q ≡ true → r ≡ q
unfolding expressions_equal
expressions_equal-path [] [] h = refl
expressions_equal-path [] (y ∷ q) h = absurd (cc)
expressions_equal-path (x ∷ r) [] h = absurd (cc)
expressions_equal-path (x ∷ r) (y ∷ q) h = ground (
  arith,
  eq_iff x.key y.key,
  eq_iff x.operator y.operator,
  values_equal-path x.values y.values,
  expressions_equal-path r q,
)

-- Two selectors that `equal` takes for one match the same labels, if no key occurs twice in their
-- maps and the first has no empty value.
pub equal_sound :
    (s o : LabelSelector) (labels : Labels)
    → IsMap (entries s.match_labels)
    → IsMap (entries o.match_labels)
    → NoEmptyValue (entries s.match_labels)
    → equal s o ≡ true
    → matches s labels ≡ matches o labels
unfolding equal
equal_sound s o labels ds do_ ne h =
    let a = entries s.match_labels in
    let b = entries o.match_labels in
    let len : length a ≡ length b = (nat_eq_iff (length a) (length b)).0 (ground arith) in
    let agree : entries_agree a b ≡ true = ground arith in
    let exprs : s.match_expressions ≡ o.match_expressions =
      expressions_equal-path s.match_expressions o.match_expressions (ground arith) in
    let same = same_entries a b ds do_ ne len agree in
    Bool-ext (matches s labels) (matches o labels) (
      λ m. (matches_iff o labels).1 (
        λ k v n. ((matches_iff s labels).0 m).0 k v ((same k v).1 n),
        λ r n. ((matches_iff s labels).0 m).1 r (subst (λ l. r ∈ l) (sym exprs) n),
      ),
      λ m. (matches_iff s labels).1 (
        λ k v n. ((matches_iff o labels).0 m).0 k v ((same k v).0 n),
        λ r n. ((matches_iff o labels).0 m).1 r (subst (λ l. r ∈ l) exprs n),
      ),
    )

-- The selector `matchLabels: {k: ""}`.
abbrev pub empty_value : String → LabelSelector
empty_value k = record { match_labels = some ((k, "") ∷ []); match_expressions = [] }

label_of-one_self : (k v : String) → label_of k ((k, v) ∷ []) ≡ v
unfolding lookup_or lookup
label_of-one_self k v = rw ((eq_iff k k).1 refl, lookup_or)

pub label_of-one_other : (k j v : String) → j ≢ k → label_of k ((j, v) ∷ []) ≡ ""
unfolding lookup_or lookup
label_of-one_other k j v n = elim (Bool-cases (j == k)) [
  | inl e ↦ absurd (n ((eq_iff j k).0 e))
  | inr e ↦ rw (e, lookup_or)
]

-- Two selectors of one label each, with different keys and the empty value, are taken for equal,
-- although a label set with a value for the first key matches the second alone.
pub equal_misses_key :
    (k j x : String)
    → k ≢ j
    → x ≢ ""
    → (equal (empty_value k) (empty_value j) ≡ true)
      × (matches (empty_value k) ((k, x) ∷ []) ≡ false)
      × (matches (empty_value j) ((k, x) ∷ []) ≡ true)
unfolding equal matches entries_agree
equal_misses_key k j x n m = (
  rw (label_of-one_other k j "" (λ e. n (sym e))),
  rw (label_of-one_self k x)
      (elim (Bool-cases (x == "")) [ inl e ↦ absurd (m ((eq_iff x "").0 e)) | inr e ↦ rw e ]),
  rw (label_of-one_other j k x n),
)
