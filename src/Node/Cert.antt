-- ===== src/Node/Cert.antt =====
-- node/cert.go: which certificate a node gets and when a new one is made. The certificates, the
-- addresses, the issuer (node/lego.go) and the files are given: a file is there with what its PEM
-- decodes to, is missing, or cannot be looked at. Times are in nanoseconds, not before the epoch.
pub mod Request
pub mod Described
pub mod Fallback
mod Tests
use zicnode.Prelude.{
  ℕ, Bool, true, false, not, ◌&&◌, ◌||◌, String, Option, none, some, List, [], ◌∷◌, ℤ, pos, negsuc,
  leb_ℤ, ltb_ℤ, ◌+ℤ◌, Map, trim_space, trim_prefix, equal_fold, contains, is_some, take_text,
  has_suffix, string_key, int_key, ◌==◌, if◌then◌else◌, quot_ℕ,
}
use zicnode.Panel.Config.{CertInfo}

-- What is read of an x509 certificate.
pub record Certificate : Type 0 where
  pub not_before : ℤ
  pub not_after : ℤ
  pub fits : String → Bool
  pub same_subject_and_issuer : Bool
  pub signs_itself : Bool
  pub sha256 : String
  pub sha256_hex : String
  pub public_key_sha256 : String

pub data File : Type 0 where
  missing : File
  hidden : File
  present : Option Certificate → File

pub record CertMetadata : Type 0 where
  pub target : String
  pub mode : String
  pub source : String
  pub sha256 : String
  pub sha256_hex : String
  pub public_key_sha256 : String
  pub not_after : ℤ
  pub updated_at : ℤ

-- The files of a node: the certificate, its key and the metadata.
pub record Files : Type 0 where
  pub cert : File
  pub key : File
  pub metadata : Option CertMetadata

-- What net.ParseIP gives.
pub record Ip : Type 0 where
  pub is_global_unicast : Bool
  pub is_private : Bool
  pub is_loopback : Bool
  pub is_unspecified : Bool
  pub is_link_local : Bool

-- The time in nanoseconds, the parsers of the package `net` and of URLs, the certificate that the
-- issuer gives by a challenge, the one that the node signs itself, and whether metadata can be
-- written.
pub record World : Type 0 where
  pub now : ℤ
  pub parse_ip : String → Option Ip
  pub url_host : String → String
  pub split_host : String → Option String
  pub issue : String → String → Option Certificate
  pub generate : String → Option Certificate
  pub writes : Bool

pub data CertError : Type 0 where
  no_paths : CertError
  not_found : CertError
  unreadable : CertError
  empty_target : CertError
  not_public : CertError
  not_issued : CertError
  not_generated : CertError
  unsupported : CertError

abbrev seconds : ℤ → ℤ
seconds t = quot_ℕ t 1000000000

-- 30 days, and 72 hours
abbrev pub domain_renew_before : ℤ
domain_renew_before = pos 2592000000000000

abbrev pub ip_renew_before : ℤ
ip_renew_before = pos 259200000000000

abbrev trim_suffix_bracket : String → String
trim_suffix_bracket String.[] = String.[]
trim_suffix_bracket (String.◌∷◌ c s) =
    let rest = trim_suffix_bracket s in if String.◌∷◌ c s == "]" then "" else String.◌∷◌ c rest

abbrev host_of : World → String → String
host_of w value =
    if not (w.url_host value == "")
    then w.url_host value
    else elim (w.split_host value) [ none ↦ value | some host ↦ host ]

unfoldable pub normalize_cert_target : World → String → String
normalize_cert_target w value =
    let v = trim_space value in
    if v == "" then "" else trim_space (trim_prefix (trim_suffix_bracket (host_of w v)) "[")

unfoldable pub is_public_ip : Ip → Bool
is_public_ip ip =
    ip.is_global_unicast
    && not ip.is_private
    && not ip.is_loopback
    && not ip.is_unspecified
    && not ip.is_link_local

unfoldable pub renew_before : World → String → ℤ
renew_before w target = if is_some (w.parse_ip target) then ip_renew_before else domain_renew_before

abbrev ip_error : Ip → Option CertError
ip_error ip = if is_public_ip ip then none else some not_public

unfoldable pub validate_auto_cert_target : World → String → Option CertError
unfolding is_public_ip
validate_auto_cert_target w target =
    if target == "" then some empty_target else elim (w.parse_ip target) [
      | some ip ↦ ip_error ip
      | none ↦
          (if equal_fold target "localhost" || not (contains target ".")
            then some not_public
            else if contains target "/" || contains target "\\"
            then some not_public
            else none)
    ]

abbrev has_entries : Map String String → Bool
has_entries [] = false
has_entries (e ∷ es) = true

-- The challenge and the source.
unfoldable pub auto_cert_challenge : World → CertInfo → String × String
auto_cert_challenge w c =
    if is_some (w.parse_ip c.cert_domain)
    then ("http", "acme_ip")
    else if not (trim_space c.provider == "") && has_entries c.dns_env
    then ("dns", "acme_dns")
    else ("http", "acme_http")

unfoldable pub managed_cert_source : World → String → String → String
managed_cert_source w mode target =
    if mode == "dns"
    then "acme_dns"
    else if is_some (w.parse_ip target)
    then "acme_ip"
    else "acme_http"

unfoldable pub validate_cert_paths : CertInfo → Option CertError
validate_cert_paths c = if c.cert_file == "" || c.key_file == "" then some no_paths else none

abbrev looked_at : File → File → Option CertError
looked_at missing key = some not_found
looked_at hidden key = some unreadable
looked_at (present c) missing = some not_found
looked_at (present c) hidden = some unreadable
looked_at (present c) (present k) = none

unfoldable pub ensure_cert_files_exist : Files → Option CertError
ensure_cert_files_exist f = looked_at f.cert f.key

unfoldable pub load_certificate : Files → Option Certificate
load_certificate f = elim f.cert [ present c ↦ c | _ ↦ none ]

unfoldable pub is_self_signed_certificate : Certificate → Bool
is_self_signed_certificate x = x.same_subject_and_issuer && x.signs_itself

-- What the readiness of a certificate comes to.
unfoldable pub is_good : World → CertInfo → ℤ → Bool → Certificate → Bool
unfolding is_self_signed_certificate
is_good w c min_validity allow_self_signed x =
    not (ltb_ℤ w.now x.not_before || leb_ℤ x.not_after (w.now +ℤ min_validity))
    && (c.cert_domain == "" || x.fits c.cert_domain)
    && (allow_self_signed || not (is_self_signed_certificate x))

pub data Readiness : Type 0 where
  ready : Readiness
  not_ready : Readiness
  broken : CertError → Readiness

abbrev readiness_of : Option CertError → Bool → Readiness
readiness_of none true = ready
readiness_of none false = not_ready
readiness_of (some not_found) b = not_ready
readiness_of (some e) b = broken e

abbrev loaded_good : World → CertInfo → ℤ → Bool → Option Certificate → Bool
loaded_good w c min_validity allow none = false
loaded_good w c min_validity allow (some x) = is_good w c min_validity allow x

unfoldable pub certificate_ready : World → CertInfo → ℤ → Bool → Files → Readiness
unfolding ensure_cert_files_exist load_certificate is_good
certificate_ready w c min_validity allow f =
    readiness_of (ensure_cert_files_exist f)
      (loaded_good w c min_validity allow (load_certificate f))

unfoldable pub metadata_from_certificate : World → CertInfo → String → Certificate → CertMetadata
metadata_from_certificate w c source x = record {
  target = c.cert_domain;
  mode = c.cert_mode;
  source = source;
  sha256 = x.sha256;
  sha256_hex = x.sha256_hex;
  public_key_sha256 = x.public_key_sha256;
  not_after = seconds x.not_after;
  updated_at = seconds w.now;
}

unfoldable pub basic_cert_metadata : World → CertInfo → String → CertMetadata
basic_cert_metadata w c source = record {
  target = c.cert_domain;
  mode = c.cert_mode;
  source = source;
  sha256 = "";
  sha256_hex = "";
  public_key_sha256 = "";
  not_after = pos 0;
  updated_at = seconds w.now;
}

unfoldable pub short_hash : String → String
short_hash value = elim (take_text 12 value) [ none ↦ value | some t ↦ t ]

unfoldable pub cert_metadata_changed : Option CertMetadata → Option CertMetadata → Bool
cert_metadata_changed previous none = false
cert_metadata_changed none (some next) = true
cert_metadata_changed (some previous) (some next) =
    not (previous.target == next.target)
    || not (previous.mode == next.mode)
    || not (previous.source == next.source)
    || not (previous.sha256 == next.sha256)
    || not (previous.sha256_hex == next.sha256_hex)
    || not (previous.public_key_sha256 == next.public_key_sha256)
    || not (previous.not_after == next.not_after)
