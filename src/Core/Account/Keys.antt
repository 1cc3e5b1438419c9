-- ===== src/Core/Account/Keys.antt =====
-- core/user.go: the builders never panic on the panel's uuids, which have 36 characters.
use zicnode.Prelude.{
  ℕ, zero, suc, ◌≢◌, ◌≤◌, String, ◌≡◌, Option, none, some, List, [], ◌∷◌, length, take_text,
  string_key, arith,
}
use zicnode.Panel.User.{UserInfo}
use zicnode.Core.Account.{
  User, build_users, build_ss_user, key_length, build_for, build_vmess_user, build_vless_user,
  build_trojan_user, build_hysteria2_user, build_tuic_user, build_any_tls_user,
}

abbrev pub text_length : String → ℕ
text_length String.[] = 0
text_length (String.◌∷◌ c s) = suc (text_length s)

take_text-defined : (n : ℕ) (s : String) → n ≤ text_length s → take_text n s ≢ none
unfolding take_text
take_text-defined zero s h = ground arith
take_text-defined (suc n) String.[] h = absurd (omega (arith, h))
take_text-defined (suc n) (String.◌∷◌ c s) h = ground (arith, take_text-defined n s)

-- The uuid of each user is at least as long as the longest key.
abbrev pub AllLong : List UserInfo → Type 0
AllLong [] = Unit
AllLong (u ∷ us) = (32 ≤ text_length u.uuid) × AllLong us

build_users-defined :
    (f : UserInfo → Option User) (us : List UserInfo)
    → ((u : UserInfo) → 32 ≤ text_length u.uuid → f u ≢ none)
    → AllLong us
    → build_users f us ≢ none
unfolding build_users
build_users-defined f [] g h = ground arith
build_users-defined f (u ∷ us) g h = ground (arith, g u h.0, build_users-defined f us g h.1)

pub build_users-length :
    (f : UserInfo → Option User) (us : List UserInfo) (xs : List User)
    → build_users f us ≡ some xs
    → length xs ≡ length us
unfolding build_users
build_users-length f [] xs h = ground arith
build_users-length f (u ∷ us) [] h = ground arith
build_users-length f (u ∷ us) (x ∷ xs) h = ground (arith, build_users-length f us xs)

build_ss_user-defined :
    (cipher server_key tag : String) (u : UserInfo)
    → 32 ≤ text_length u.uuid
    → build_ss_user cipher server_key tag u ≢ none
unfolding build_ss_user key_length
build_ss_user-defined cipher server_key tag u h =
    ground (arith, take_text-defined (key_length cipher) u.uuid)

-- Where every uuid has at least 32 characters, no node type and no cipher makes the builders of
-- accounts panic.
pub build_for-defined :
    (type flow cipher server_key tag : String) (users : List UserInfo)
    → AllLong users
    → build_for type flow cipher server_key tag users ≢ some none
unfolding build_for
build_for-defined type flow cipher server_key tag users h = ground (
  arith,
  build_users-defined (build_ss_user cipher server_key tag) users
      (build_ss_user-defined cipher server_key tag) h,
  build_users-defined (λ u. some (build_vmess_user tag u)) users (λ u l. ground arith) h,
  build_users-defined (λ u. some (build_vless_user flow tag u)) users (λ u l. ground arith) h,
  build_users-defined (λ u. some (build_trojan_user tag u)) users (λ u l. ground arith) h,
  build_users-defined (λ u. some (build_hysteria2_user tag u)) users (λ u l. ground arith) h,
  build_users-defined (λ u. some (build_tuic_user tag u)) users (λ u l. ground arith) h,
  build_users-defined (λ u. some (build_any_tls_user tag u)) users (λ u l. ground arith) h,
)
