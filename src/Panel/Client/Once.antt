-- ===== src/Panel/Client/Once.antt =====
-- api/zicboard/node.go, `GetNodeInfo`: how often a body is read.
use zicnode.Prelude.{
  String, ℤ, pos, ◌≡◌, refl, inl, inr, Bool-cases, ◌==◌, string_key, int_key, same_refl,
}
use zicnode.Panel.Decode.{Decoder}
use zicnode.Panel.Client.{Client, response}
use zicnode.Panel.Client.NodeInfo.{unchanged, get_node_info}

-- After an answer of the panel, whether it gave a node or an error, the same answer (with any ETag)
-- counts as no change and leaves the client: a body that could not be decoded is not read again.
pub get_node_info-once :
    (d : Decoder) (hex_sha256 : String → String) (status : ℤ) (etag etag' body : String)
    (c : Client)
    → let c' = (get_node_info d hex_sha256 (response status etag body) c).1 in
      get_node_info d hex_sha256 (response status etag' body) c' ≡ (unchanged, c')
unfolding get_node_info
get_node_info-once d hex_sha256 status etag etag' body c = elim (Bool-cases (status == pos 304)) [
  | inl e ↦ rw e refl
  | inr e ↦ elim (Bool-cases (c.response_body_hash == hex_sha256 body)) [
    | inl g ↦ rw (e, g) (rw g refl)
    | inr g ↦ rw (e, g, same_refl (hex_sha256 body)) refl
  ]
]
