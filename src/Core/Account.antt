-- ===== src/Core/Account.antt =====
-- core/user.go: the accounts that the proxy engine gets for the users of a node.
pub mod Keys
use zicnode.Prelude.{
  to_lower, base64, ℕ, ◌<◌, ltb, Bool, true, false, ◌||◌, String, Option, none, some, List, [], ◌∷◌,
  string_key, ◌==◌, if◌then◌else◌, take_text,
}
use zicnode.Format.{user_tag}
use zicnode.Panel.User.{UserInfo}

pub data CipherType : Type 0 where
  aes_128_gcm aes_256_gcm chacha20_poly1305 cipher_none cipher_unknown : CipherType

-- The message in `protocol.User.Account`, by the proxy's package.
pub data Account : Type 0 where
  vmess : String → String → Account
  vless : String → String → Account
  trojan hysteria2 anytls : String → Account
  tuic : String → String → Account
  shadowsocks : String → CipherType → Account
  shadowsocks_2022 : String → Account

pub record User : Type 0 where
  pub level : ℕ
  pub email : String
  pub account : Account

abbrev user_with : String → UserInfo → Account → User
user_with tag u a = record { level = 0; email = user_tag tag u.uuid; account = a }

unfoldable pub build_vmess_user : String → UserInfo → User
build_vmess_user tag u = user_with tag u (vmess u.uuid "auto")

unfoldable pub build_vless_user : String → String → UserInfo → User
build_vless_user flow tag u = user_with tag u (vless u.uuid flow)

unfoldable pub build_trojan_user : String → UserInfo → User
build_trojan_user tag u = user_with tag u (trojan u.uuid)

unfoldable pub build_hysteria2_user : String → UserInfo → User
build_hysteria2_user tag u = user_with tag u (hysteria2 u.uuid)

unfoldable pub build_tuic_user : String → UserInfo → User
build_tuic_user tag u = user_with tag u (tuic u.uuid u.uuid)

unfoldable pub build_any_tls_user : String → UserInfo → User
build_any_tls_user tag u = user_with tag u (anytls u.uuid)

-- The loop of each of the builders of a list; `none` is a panic.
unfoldable pub build_users : (UserInfo → Option User) → List UserInfo → Option (List User)
build_users f [] = some []
build_users f (u ∷ us) = elim (f u) [
  | none ↦ none
  | some x ↦ elim (build_users f us) [ none ↦ none | some xs ↦ some (x ∷ xs) ]
]

-- The length of the key that the cipher takes, 0 for the others.
unfoldable pub key_length : String → ℕ
key_length cipher =
    if cipher == "2022-blake3-aes-128-gcm"
    then 16
    else if cipher == "2022-blake3-aes-256-gcm"
    then 32
    else if cipher == "2022-blake3-chacha20-poly1305"
    then 32
    else 0

unfoldable pub get_cipher_from_string : String → CipherType
get_cipher_from_string cipher =
    let c = to_lower cipher in
    if c == "aes-128-gcm" || c == "aead_aes_128_gcm"
    then aes_128_gcm
    else if c == "aes-256-gcm" || c == "aead_aes_256_gcm"
    then aes_256_gcm
    else if c == "chacha20-poly1305"
        || c == "aead_chacha20_poly1305"
        || c == "chacha20-ietf-poly1305"
    then chacha20_poly1305
    else if c == "none" || c == "plain"
    then cipher_none
    else cipher_unknown

-- `userInfo.Uuid[:keyLength]` panics where the uuid is shorter.
unfoldable pub build_ss_user : String → String → String → UserInfo → Option User
unfolding get_cipher_from_string key_length
build_ss_user cipher server_key tag u =
    if server_key == ""
    then some (user_with tag u (shadowsocks u.uuid (get_cipher_from_string cipher)))
    else elim (take_text (key_length cipher) u.uuid) [
      | none ↦ none
      | some key ↦ some (user_with tag u (shadowsocks_2022 (base64 key)))
    ]

-- The switch of `AddUsers` on the node's type: `none` is an unsupported type, the inner `none` a
-- panic.
unfoldable pub build_for :
    String → String → String → String → String → List UserInfo → Option (Option (List User))
unfolding build_vmess_user build_vless_user build_trojan_user build_hysteria2_user build_tuic_user
    build_any_tls_user build_ss_user build_users
build_for type flow cipher server_key tag users =
    if type == "vmess"
    then some (build_users (λ u. some (build_vmess_user tag u)) users)
    else if type == "vless"
    then some (build_users (λ u. some (build_vless_user flow tag u)) users)
    else if type == "trojan"
    then some (build_users (λ u. some (build_trojan_user tag u)) users)
    else if type == "shadowsocks"
    then some (build_users (build_ss_user cipher server_key tag) users)
    else if type == "hysteria2"
    then some (build_users (λ u. some (build_hysteria2_user tag u)) users)
    else if type == "tuic"
    then some (build_users (λ u. some (build_tuic_user tag u)) users)
    else if type == "anytls"
    then some (build_users (λ u. some (build_any_tls_user tag u)) users)
    else none
