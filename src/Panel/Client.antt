-- ===== src/Panel/Client.antt =====
-- api/zicboard: panel.go (the client), node.go (GetNodeInfo) and user.go (GetUserList, GetUserAlive).
-- The answers of the panel over HTTP are arguments.
pub mod NodeInfo
pub mod UserList
pub mod Once
pub mod Accepted
mod Tests
use zicnode.Prelude.{
  String, Option, none, some, List, [], ◌∷◌, ℤ, pos, ltb_ℤ, itoa, Map, if◌then◌else◌,
}
use zicnode.Conf.{NodeConfig, default_node_retry_count, default_node_timeout}

-- What the HTTP client is told.
pub record Transport : Type 0 where
  pub retry_count : ℤ
  pub timeout : ℤ
  pub base_url : String
  pub query : Map String String

pub record Client : Type 0 where
  pub transport : Transport
  pub api_host : String
  pub token : String
  pub node_id : ℤ
  pub node_etag : String
  pub user_etag : String
  pub response_body_hash : String
  pub alive_map : Map ℤ ℤ

abbrev count_or : Option ℤ → ℤ → ℤ
count_or none default = default
count_or (some n) default = n

-- The timeout is in seconds.
unfoldable pub new_client : NodeConfig → Client
unfolding itoa
new_client c = record {
  transport = record {
    retry_count = count_or c.retry_count default_node_retry_count;
    timeout = if ltb_ℤ (pos 0) c.timeout then c.timeout else default_node_timeout;
    base_url = c.api_host;
    query = ("node_type", "zicnode") ∷ ("node_id", itoa c.node_id) ∷ ("token", c.api_key) ∷ [];
  };
  api_host = c.api_host;
  token = c.api_key;
  node_id = c.node_id;
  node_etag = "";
  user_etag = "";
  response_body_hash = "";
  alive_map = [];
}

-- A call fails, or there is no response, or one with its status, its ETag and its body.
pub data Reply {ℓ} (B : Type ℓ) : Type ℓ where
  call_failed : Reply B
  no_response : Reply B
  response : ℤ → String → B → Reply B
