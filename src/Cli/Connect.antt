-- ===== src/Cli/Connect.antt =====
-- cmd/krsm/main.go: `newLiveReader` and `restConfig`, which end at internal/cluster/reader.go. The
-- loading of a kubeconfig by clientcmd and the construction of clients are parameters.
use krsm.Prelude.{String, Option, none, some, ◌==◌, if◌then◌else◌, Result, ok, err, ◌>>=◌, relabel}
use krsm.Cluster.{Unstructured}
use krsm.Cluster.Reader.{Client, resolve_kind, read_state}
use krsm.Cli.{CliError, no_reader, kind_unresolved, read_failed, LiveReader}

-- `newReader`, as the command sees it.
unfoldable pub reader_of : Client → Unstructured → LiveReader
reader_of client api = record {
  resolve_kind = λ token. relabel kind_unresolved (resolve_kind client token);
  state = relabel read_failed (read_state client api);
}

-- What clientcmd is asked for: a path in place of the default rules, and a context.
pub record ClientConfig : Type 0 where
  pub explicit_path : Option String
  pub current_context : String

abbrev pub config_of : String → String → ClientConfig
config_of kubeconfig context = record {
  explicit_path = if kubeconfig == "" then none else some kubeconfig;
  current_context = context;
}

module _ {C : Type 0} (resolve : ClientConfig → Option C) (dial : C → Option Client)
    (api : Unstructured) where
  unfoldable pub rest_config : String → String → Result CliError C
  rest_config kubeconfig context = elim (resolve (config_of kubeconfig context)) [
    | none ↦ err no_reader
    | some cfg ↦ ok cfg
  ]

  -- `cluster.NewReader`
  unfoldable pub new_reader : C → Result CliError LiveReader
  unfolding reader_of
  new_reader cfg = elim (dial cfg) [
    | none ↦ err no_reader
    | some client ↦ ok (reader_of client api)
  ]

  unfoldable pub new_live_reader : String → String → Result CliError LiveReader
  unfolding rest_config new_reader
  new_live_reader kubeconfig context = rest_config kubeconfig context >>= λ cfg. new_reader cfg
