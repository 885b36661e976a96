-- ===== src/Cli/Listed.antt =====
-- cmd/krsm/main.go with internal/cluster/reader.go: a live check whose reader is that of the package
-- cluster.
use krsm.Prelude.{
  Option, Option-cases, relabel-ok, ℕ, String, some, List, ◌≡◌, refl, sym, ap, ◌∙◌, inl, inr, ◌∈◌,
  subst, Result, ok, Result-cases, if◌then◌else◌, ◌==◌, ok_injective, Fields,
}
use krsm.Model.{Object, Action}
use krsm.State.{State, new_scan_state}
use krsm.State.Laws.{lookup_ref-tracked, new_scan_state-PointsInto}
use krsm.Cluster.{Unstructured}
use krsm.Cluster.Build.{ScopeInfo}
use krsm.Cluster.Projection.{StandsFor}
use krsm.Cluster.Snapshot.{Mirrors, no_more, next}
use krsm.Cluster.Reader.{Client, read_state, scope_from_lists}
use krsm.Cluster.Live.{ReadFrom, read_state-ReadFrom}
use krsm.Cli.{
  CliError, read_failed, LiveReader, LiveOpts, Checked, exit_code, live_request, extract_namespace,
  verb_and_target, split_target, parse_action, run_check_live,
}
use krsm.Cli.Status.{live_zero_sound}
use krsm.Cli.Connect.{ClientConfig, config_of, reader_of, rest_config, new_reader, new_live_reader}

-- The state of a request is what the reader read.
live_request-reads :
    (args : List String) (o : LiveOpts) (nlr : String → String → Result CliError LiveReader)
    (reader : LiveReader) (a : Action) (s : State)
    → nlr o.kubeconfig o.context_name ≡ ok reader
    → live_request args o nlr ≡ ok (a, s)
    → reader.state ≡ ok s
unfolding live_request
live_request-reads args o nlr reader a s n h = elim (Result-cases (extract_namespace args)) [
  | inr (x, e) ↦ absurd (cc (rw (live_request, e) at h))
  | inl (w, e) ↦ elim (Result-cases (verb_and_target w.0)) [
    | inr (x, f) ↦ absurd (cc (rw (live_request, e, f) at h))
    | inl (vt, f) ↦ elim (Result-cases (split_target vt.1)) [
      | inr (x, g) ↦ absurd (cc (rw (live_request, e, f, n, g) at h))
      | inl (kn, g) ↦ elim (Result-cases (reader.resolve_kind kn.0)) [
        | inr (x, k) ↦ absurd (cc (rw (live_request, e, f, n, g, k) at h))
        | inl (kind, k) ↦
            elim (Result-cases
              (parse_action vt.0 kind kn.1 (if w.1 == "" then o.namespace else w.1))) [
                | inr (x, l) ↦ absurd (cc (rw (live_request, e, f, n, g, k, l) at h))
                | inl (action, l) ↦ elim (Result-cases reader.state) [
                  | inr (x, m) ↦ absurd (cc (rw (live_request, e, f, n, g, k, l, m) at h))
                  | inl (s', m) ↦
                      m
                      ∙ ap ok (
                          ap (λ (p : Action × State). p.1)
                            (ok_injective (action, s') (a, s)
                              (rw (live_request, e, f, n, g, k, l, m) at h)))
                ]
              ]
      ]
    ]
  ]
]

Mirrors-∈ :
    (api : Unstructured) (scope : ScopeInfo) (os : List Fields) (xs : List Object) (x : Object)
    → Mirrors api scope os xs
    → x ∈ xs
    → (o : Fields) × (o ∈ os) × StandsFor api scope o x
Mirrors-∈ api scope _ _ x no_more m = absurd m
Mirrors-∈ api scope _ _ y (next {o} {x} {os} {xs} w ws) m = elim m [
  | inl p ↦ (o, inl refl, subst (StandsFor api scope o) (sym p) w)
  | inr k ↦ let (o', k', w') = Mirrors-∈ api scope os xs y ws k in (o', inr k', w')
]

-- What a state tracks was listed.
pub ReadFrom-tracked :
    (client : Client) (api : Unstructured) (s : State) (r : ReadFrom client api s) (a : Action)
    (t : Object)
    → s.get a.target ≡ some t
    → (o : Fields) × (o ∈ r.listed) × StandsFor api (scope_from_lists client r.resource_lists) o t
ReadFrom-tracked client api s r a t h =
    Mirrors-∈ api (scope_from_lists client r.resource_lists) r.listed r.objects t r.mirrors (
      lookup_ref-tracked r.objects (new_scan_state r.objects) a.target t
        (new_scan_state-PointsInto r.objects)
        (ap (λ (x : State). x.get a.target) (sym r.scanned) ∙ h))

-- A request that is worked out has a reader.
live_request-connects :
    (args : List String) (o : LiveOpts) (nlr : String → String → Result CliError LiveReader)
    (a : Action) (s : State)
    → live_request args o nlr ≡ ok (a, s)
    → (reader : LiveReader) × (nlr o.kubeconfig o.context_name ≡ ok reader)
unfolding live_request
live_request-connects args o nlr a s h = elim (Result-cases (nlr o.kubeconfig o.context_name)) [
  | inl (reader, n) ↦ (reader, n)
  | inr (x, n) ↦ elim (Result-cases (extract_namespace args)) [
    | inr (y, e) ↦ absurd (cc (rw (live_request, e) at h))
    | inl (w, e) ↦ elim (Result-cases (verb_and_target w.0)) [
      | inr (y, f) ↦ absurd (cc (rw (live_request, e, f) at h))
      | inl (vt, f) ↦ absurd (cc (rw (live_request, e, f, n) at h))
    ]
  ]
]

module _ {C : Type 0} (resolve : ClientConfig → Option C) (dial : C → Option Client)
    (api : Unstructured) where
  new_live_reader-client :
      (kubeconfig context : String) (reader : LiveReader)
      → new_live_reader resolve dial api kubeconfig context ≡ ok reader
      → (cfg : C) × (client : Client) × (resolve (config_of kubeconfig context) ≡ some cfg)
        × (dial cfg ≡ some client)
        × (reader ≡ reader_of client api)
  unfolding new_live_reader rest_config new_reader
  new_live_reader-client kubeconfig context reader h =
      elim (Option-cases (resolve (config_of kubeconfig context))) [
        | inl e ↦ absurd (cc (rw (new_live_reader, rest_config, e) at h))
        | inr (cfg, e) ↦ elim (Option-cases (dial cfg)) [
          | inl f ↦ absurd (cc (rw (new_live_reader, rest_config, e, new_reader, f) at h))
          | inr (client, f) ↦ (
            cfg,
            client,
            e,
            f,
            sym (
                ok_injective (reader_of client api) reader
                  (rw (new_live_reader, rest_config, e, new_reader, f) at h)),
          )
        ]
      ]

  -- A live check that ends with status 0, whatever the fuel, has loaded a configuration and built
  -- a client from it, has read a state, whose discovery and every list call succeeded, and its
  -- target is resolved to an object that stands for one of the listed items.
  pub live_zero_listed :
      (fuel : ℕ) (args : List String) (o : LiveOpts) (c : Checked)
      → run_check_live fuel args o (new_live_reader resolve dial api) ≡ some c
      → exit_code c ≡ 0
      → (cfg : C) × (client : Client) × (a : Action) × (s : State) × (r : ReadFrom client api s)
        × (t : Object) × (item : Fields) × (resolve (config_of o.kubeconfig o.context_name)
            ≡ some cfg)
        × (dial cfg ≡ some client)
        × (live_request args o (new_live_reader resolve dial api) ≡ ok (a, s))
        × (s.get a.target ≡ some t)
        × (item ∈ r.listed)
        × StandsFor api (scope_from_lists client r.resource_lists) item t
  unfolding reader_of
  live_zero_listed fuel args o c h z =
      let nlr = new_live_reader resolve dial api in
      let (a, s, t, q, g) = live_zero_sound fuel args o nlr c h z in
      let (reader, n) = live_request-connects args o nlr a s q in
      let (cfg, client, k, l, same) = new_live_reader-client o.kubeconfig o.context_name reader n in
      let e = live_request-reads args o nlr (reader_of client api) a s (n ∙ ap ok same) q in
      let r =
        read_state-ReadFrom client api s (relabel-ok read_failed (read_state client api) s e) in
      let (item, m, w) = ReadFrom-tracked client api s r a t g in
      (cfg, client, a, s, r, t, item, k, l, q, g, m, w)
