-- ===== src/Scenario/Loaded.antt =====
-- internal/scenario/scenario.go: when `Load` succeeds, and what it gives.
use krsm.Prelude.{
  String, List, ◌≡◌, refl, sym, ap, ◌∙◌, inl, inr, ◌↔◌, subst, ok, Result-cases, ok_injective,
  >>=-ok,
}
use krsm.Model.{Object, Action}
use krsm.Model.Clause.{ScopeClause}
use krsm.State.{new_scan_state, scan_state}
use krsm.Scenario.{Scenario, FileRead, content, Yaml}
use krsm.Scenario.Manifests.{parse_cluster}
use krsm.Scenario.Clauses.{parse_action}
use krsm.Scenario.Load.{contents, read_file, load_scope, load}
use krsm.Scenario.Sources.{ScopeOf, FileRead-cases, load_scope_iff}

-- The scenario is that of the files: cluster.yaml and request.yaml are there and parse, and the scope
-- is taken from the first source that is there.
pub record LoadedFrom (yaml : Yaml) (read : String → FileRead) (sc : Scenario) : Type 0 where
  pub cluster_raw : String
  pub cluster : read "cluster.yaml" ≡ content cluster_raw
  pub objects : List Object
  pub parsed : parse_cluster yaml cluster_raw ≡ ok objects
  pub tracked : sc.state ≡ scan_state (new_scan_state objects)
  pub request_raw : String
  pub request : read "request.yaml" ≡ content request_raw
  pub action : parse_action yaml request_raw ≡ ok sc.action
  pub scope : ScopeOf yaml read sc.action.target (sc.scope, sc.scope_source)

abbrev scenario_of : List Object → Action → List ScopeClause × String → Scenario
scenario_of objs a out = record {
  state = scan_state (new_scan_state objs);
  action = a;
  scope = out.0;
  scope_source = out.1;
}

module _ (yaml : Yaml) (read : String → FileRead) where
  read_file-ok : (name raw : String) → read_file yaml read name ≡ ok raw → read name ≡ content raw
  read_file-ok name raw h = elim (FileRead-cases (read name)) [
    | inl (s, e) ↦ e ∙ ap content (ok_injective s raw (rw e at h))
    | inr (inl e) ↦ absurd (cc (rw e at h))
    | inr (inr e) ↦ absurd (cc (rw e at h))
  ]

  load-LoadedFrom : (sc : Scenario) → load yaml read ≡ ok sc → LoadedFrom yaml read sc
  unfolding load
  load-LoadedFrom sc h = elim (Result-cases (read_file yaml read "cluster.yaml")) [
    | inr (x, e) ↦ absurd (cc (rw (load, e) at h))
    | inl (raw, e) ↦ elim (Result-cases (parse_cluster yaml raw)) [
      | inr (x, f) ↦ absurd (cc (rw (load, e, f) at h))
      | inl (objs, f) ↦ elim (Result-cases (read_file yaml read "request.yaml")) [
        | inr (x, g) ↦ absurd (cc (rw (load, e, f, g) at h))
        | inl (request, g) ↦ elim (Result-cases (parse_action yaml request)) [
          | inr (x, k) ↦ absurd (cc (rw (load, e, f, g, k) at h))
          | inl (a, k) ↦ elim (Result-cases (load_scope yaml read a.target)) [
            | inr (x, l) ↦ absurd (cc (rw (load, e, f, g, k, l) at h))
            | inl (out, l) ↦
                subst (LoadedFrom yaml read)
                  (ok_injective (scenario_of objs a out) sc (rw (load, e, f, g, k, l) at h))
                  (record {
                    cluster_raw = raw;
                    cluster = read_file-ok "cluster.yaml" raw e;
                    objects = objs;
                    parsed = f;
                    tracked = refl;
                    request_raw = request;
                    request = read_file-ok "request.yaml" request g;
                    action = k;
                    scope = (load_scope_iff yaml read a.target out).0 l;
                  })
          ]
        ]
      ]
    ]
  ]

  load_of : (sc : Scenario) → LoadedFrom yaml read sc → load yaml read ≡ ok sc
  unfolding load
  load_of sc w =
      let l = (load_scope_iff yaml read sc.action.target (sc.scope, sc.scope_source)).1 w.scope in
      >>=-ok (contents (read "cluster.yaml")) _ w.cluster_raw (ap contents w.cluster)
      ∙ >>=-ok (parse_cluster yaml w.cluster_raw) _ w.objects w.parsed
      ∙ >>=-ok (contents (read "request.yaml")) _ w.request_raw (ap contents w.request)
      ∙ >>=-ok (parse_action yaml w.request_raw) _ sc.action w.action
      ∙ >>=-ok (load_scope yaml read sc.action.target) _ (sc.scope, sc.scope_source) l
      ∙ ap (λ s. ok (record sc { state = s })) (sym w.tracked)

  -- `Load` gives a scenario exactly if cluster.yaml and request.yaml are there and parse to its
  -- state and action, and its scope is that of taskcontract.yaml, which parses and compiles, or,
  -- if that file is absent, that of scope.yaml, or, if both are absent, the derived one; any other
  -- error of a read ends the load.
  pub load_iff : (sc : Scenario) → (load yaml read ≡ ok sc) ↔ LoadedFrom yaml read sc
  load_iff sc = (load-LoadedFrom sc, load_of sc)
