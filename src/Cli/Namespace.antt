-- ===== src/Cli/Namespace.antt =====
-- cmd/krsm/main.go: `extractNamespace`.
pub mod Words
use Prim.Native.String.{◌++◌ as ◌++ₛ◌}
use Words.{
  NoFlag, arg_of-short, arg_of-long, arg_of-short_joined, arg_of-long_joined, arg_of-NoFlag,
  NoFlag-arg_of,
}
use krsm.Prelude.{
  ok_injective, append_assoc, append_nil, String, false, List, [], ◌∷◌, ◌++◌, ◌≡◌, refl, sym, ap,
  ◌∙◌, ◌⊎◌, inl, inr, ◌∈◌, ∈-append, Bool-cases, if◌then◌else◌, subst, has_slash, Result, ok, err,
}
use krsm.Cli.{
  CliError, slash_in_namespace, Arg, takes_value, positional, carries, arg_of, take, extract_loop,
  extract_namespace,
}

abbrev pub AllPositional : List String → Type 0
AllPositional words = (w : String) → w ∈ words → NoFlag w

-- The words that give a namespace: a flag, short or long, and its value apart, or joined by `=`.
pub data Gives (v : String) : List String → Type 0 where
  short : Gives v ("-n" ∷ v ∷ [])
  long : Gives v ("--namespace" ∷ v ∷ [])
  short_joined : Gives v (("-n=" ++ₛ v) ∷ [])
  long_joined : Gives v (("--namespace=" ++ₛ v) ∷ [])

-- One round on a word that is no flag.
keep_word :
    (a : String) (args pos : List String) (ns : String)
    → arg_of a ≡ positional
    → extract_loop (a ∷ args) pos ns ≡ extract_loop args (pos ++ (a ∷ [])) ns
unfolding extract_loop
keep_word a [] pos ns h = rw (extract_loop, h)
keep_word a (b ∷ args) pos ns h = rw (extract_loop, h)

keep_words :
    (pre args pos : List String) (ns : String)
    → AllPositional pre
    → extract_loop (pre ++ args) pos ns ≡ extract_loop args (pos ++ pre) ns
keep_words [] args pos ns h = ap (λ l. extract_loop args l ns) (sym (append_nil pos))
keep_words (a ∷ pre) args pos ns h =
    keep_word a (pre ++ args) pos ns (arg_of-NoFlag a (h a (inl refl)))
    ∙ keep_words pre args (pos ++ (a ∷ [])) ns (λ w m. h w (inr m))
    ∙ ap (λ l. extract_loop args l ns) (append_assoc pos (a ∷ []) pre)

-- Words that are no flags are all kept.
only_words :
    (words pos : List String) (ns : String)
    → AllPositional words
    → extract_loop words pos ns ≡ ok (pos ++ words, ns)
unfolding extract_loop
only_words words pos ns h =
    ap (λ l. extract_loop l pos ns) (sym (append_nil words)) ∙ keep_words words [] pos ns h

abbrev taken : String → List String → Result CliError (List String × String)
taken v words = if has_slash v then err slash_in_namespace else ok (words, v)

take_apart :
    (flag : String) (post pos : List String) (v ns : String)
    → arg_of flag ≡ takes_value
    → AllPositional post
    → extract_loop (flag ∷ v ∷ post) pos ns ≡ taken v (pos ++ post)
unfolding extract_loop take
take_apart flag post pos v ns h p = elim (Bool-cases (has_slash v)) [
  | inl e ↦ rw (extract_loop, h, e)
  | inr e ↦ rw (extract_loop, h, e) (only_words post pos v p)
]

take_joined :
    (word : String) (post pos : List String) (v ns : String)
    → arg_of word ≡ carries v
    → AllPositional post
    → extract_loop (word ∷ post) pos ns ≡ taken v (pos ++ post)
unfolding extract_loop take
take_joined word [] pos v ns h p = elim (Bool-cases (has_slash v)) [
  | inl e ↦ rw (extract_loop, h, e)
  | inr e ↦ rw (extract_loop, h, e) (ap (λ l. ok (l, v)) (sym (append_nil pos)))
]
take_joined word (b ∷ post) pos v ns h p = elim (Bool-cases (has_slash v)) [
  | inl e ↦ rw (extract_loop, h, e)
  | inr e ↦ rw (extract_loop, h, e) (only_words (b ∷ post) pos v p)
]

take_value :
    (v ns : String) (words post pos : List String)
    → Gives v words
    → AllPositional post
    → extract_loop (words ++ post) pos ns ≡ taken v (pos ++ post)
take_value v ns _ post pos short p = take_apart "-n" post pos v ns arg_of-short p
take_value v ns _ post pos long p = take_apart "--namespace" post pos v ns arg_of-long p
take_value v ns _ post pos short_joined p =
    take_joined ("-n=" ++ₛ v) post pos v ns (arg_of-short_joined v) p
take_value v ns _ post pos long_joined p =
    take_joined ("--namespace=" ++ₛ v) post pos v ns (arg_of-long_joined v) p

-- A namespace flag, `-n` or `--namespace` with its value apart or joined by `=`, may stand before,
-- between or behind words that are no such flag: its value is taken and the words are left in
-- order, and a value with a slash is refused wherever it stands.
pub extract_namespace_anywhere :
    (pre words post : List String) (v : String)
    → AllPositional pre
    → Gives v words
    → AllPositional post
    → extract_namespace (pre ++ (words ++ post))
      ≡ (if has_slash v then err slash_in_namespace else ok (pre ++ post, v))
unfolding extract_namespace
extract_namespace_anywhere pre words post v h g p =
    keep_words pre (words ++ post) [] "" h ∙ take_value v "" words post pre g p

-- No word is a flag, and the namespace has no slash.
abbrev pub Clean : List String × String → Type 0
Clean r = AllPositional r.0 × (has_slash r.1 ≡ false)

Arg-cases : (x : Arg) → (x ≡ takes_value) ⊎ ((x ≡ positional) ⊎ ((v : String) × (x ≡ carries v)))
Arg-cases takes_value = inl refl
Arg-cases positional = inr (inl refl)
Arg-cases (carries v) = inr (inr (v, refl))

more_positional :
    (pos : List String) (a : String)
    → AllPositional pos
    → arg_of a ≡ positional
    → AllPositional (pos ++ (a ∷ []))
more_positional pos a p h w m = elim ((∈-append w pos (a ∷ [])).0 m) [
  | inl k ↦ p w k
  | inr (inl e) ↦ subst NoFlag (sym e) (NoFlag-arg_of a h)
  | inr (inr no_more) ↦ absurd no_more
]

extract_loop-Clean :
    (args pos : List String) (ns : String) (r : List String × String)
    → Clean (pos, ns)
    → extract_loop args pos ns ≡ ok r
    → Clean r
unfolding extract_loop take
extract_loop-Clean [] pos ns r c h = subst Clean (ok_injective (pos, ns) r h) c
extract_loop-Clean (a ∷ []) pos ns r (p, f) h = elim (Arg-cases (arg_of a)) [
  | inl e ↦ absurd (cc (rw (extract_loop, e) at h))
  | inr (inl e) ↦
      subst Clean (ok_injective (pos ++ (a ∷ []), ns) r (rw (extract_loop, e) at h))
        (more_positional pos a p e, f)
  | inr (inr (v, e)) ↦ elim (Bool-cases (has_slash v)) [
    | inl s ↦ absurd (cc (rw (extract_loop, e, s) at h))
    | inr s ↦ subst Clean (ok_injective (pos, v) r (rw (extract_loop, e, s) at h)) (p, s)
  ]
]
extract_loop-Clean (a ∷ b ∷ args) pos ns r (p, f) h = elim (Arg-cases (arg_of a)) [
  | inl e ↦ elim (Bool-cases (has_slash b)) [
    | inl s ↦ absurd (cc (rw (extract_loop, e, s) at h))
    | inr s ↦ extract_loop-Clean args pos b r (p, s) (rw (extract_loop, e, s) at h)
  ]
  | inr (inl e) ↦
      extract_loop-Clean (b ∷ args) (pos ++ (a ∷ [])) ns r (more_positional pos a p e, f)
        (rw (extract_loop, e) at h)
  | inr (inr (v, e)) ↦ elim (Bool-cases (has_slash v)) [
    | inl s ↦ absurd (cc (rw (extract_loop, e, s) at h))
    | inr s ↦ extract_loop-Clean (b ∷ args) pos v r (p, s) (rw (extract_loop, e, s) at h)
  ]
]

-- A result of `extractNamespace` has no namespace flag among its words, and its namespace has no
-- slash.
pub extract_namespace-Clean :
    (args : List String) (r : List String × String) → extract_namespace args ≡ ok r → Clean r
unfolding extract_namespace has_slash
extract_namespace-Clean args r h = extract_loop-Clean args [] "" r (λ w m. absurd m, refl) h
