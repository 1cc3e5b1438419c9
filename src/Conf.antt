-- ===== src/Conf.antt =====
-- conf/conf.go: the configuration, and what `LoadFromPath` does after the file has been read.
pub mod Watch
use zicnode.Prelude.{String, Option, none, some, List, map, ℤ, pos, []}

abbrev pub default_node_retry_count : ℤ
default_node_retry_count = pos 1

abbrev pub default_node_timeout : ℤ
default_node_timeout = pos 15

pub record LogConfig : Type 0 where
  pub level : String
  pub output : String
  pub access : String

pub record NodeConfig : Type 0 where
  pub api_host : String
  pub node_id : ℤ
  pub api_key : String
  pub timeout : ℤ
  pub retry_count : Option ℤ

pub record Conf : Type 0 where
  pub log_config : LogConfig
  pub node_configs : List NodeConfig
  pub pprof_port : ℤ

-- conf.New
abbrev pub new_conf : Conf
new_conf = record {
  log_config = record { level = "info"; output = ""; access = "" };
  node_configs = [];
  pprof_port = pos 0;
}

-- The retry count of each node that has none.
unfoldable pub fill_retry_count : NodeConfig → NodeConfig
fill_retry_count n = elim n.retry_count [
  | none ↦ record n { retry_count = some default_node_retry_count }
  | some _ ↦ n
]

-- `read` opens and decodes the file over a configuration: the work of `os` and of viper.
unfoldable pub load_from_path : (Conf → Option Conf) → Conf → Option Conf
unfolding fill_retry_count
load_from_path read p = elim (read p) [
  | none ↦ none
  | some q ↦ some (record q { node_configs = map fill_retry_count q.node_configs })
]
