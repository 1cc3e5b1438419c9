-- ===== src/Server/Signature.antt =====
-- cmd/server.go: the signature by which two runtimes are compared. `digest` stands for the JSON
-- encoding and SHA-256 of the signature's data.
use zicnode.Prelude.{
  Bool, String, Option, none, some, List, [], map, ℤ, pos, leb_ℤ, string_key, ◌==◌, if◌then◌else◌,
}
use zicnode.Conf.{NodeConfig, Conf, default_node_retry_count, default_node_timeout}

pub record SignatureNode : Type 0 where
  pub api_host : String
  pub node_id : ℤ
  pub api_key : String
  pub timeout : ℤ
  pub retry_count : ℤ

pub record SignatureData : Type 0 where
  pub nodes : Option (List SignatureNode)
  pub fingerprints : List String

unfoldable pub signature_node : NodeConfig → SignatureNode
signature_node n = record {
  api_host = n.api_host;
  node_id = n.node_id;
  api_key = n.api_key;
  timeout = if leb_ℤ n.timeout (pos 0) then default_node_timeout else n.timeout;
  retry_count = elim n.retry_count [ none ↦ default_node_retry_count | some c ↦ c ];
}

unfoldable pub build_runtime_signature_nodes : Option Conf → Option (List SignatureNode)
unfolding signature_node
build_runtime_signature_nodes none = none
build_runtime_signature_nodes (some c) = some (map signature_node c.node_configs)

-- A node without information has the empty fingerprint.
unfoldable pub fingerprint_of : Option String → String
fingerprint_of none = ""
fingerprint_of (some f) = f

module _ (digest : SignatureData → String) where
  -- The list holds the fingerprints of the nodes, `none` where the information is nil.
  unfoldable pub build_runtime_signature : Option Conf → List (Option String) → String
  unfolding build_runtime_signature_nodes fingerprint_of
  build_runtime_signature c infos =
      digest (record {
        nodes = build_runtime_signature_nodes c;
        fingerprints = map fingerprint_of infos;
      })

  unfoldable pub same_local_runtime_config : Option Conf → Option Conf → Bool
  unfolding build_runtime_signature
  same_local_runtime_config old new =
      build_runtime_signature old [] == build_runtime_signature new []
