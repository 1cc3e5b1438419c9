-- ===== src/Node/Cert/Tests.antt =====
-- node/cert.go on a node whose issuer fails.
use zicnode.Prelude.{
  ◌+ℤ◌, arith, str_iff, true, false, String, none, some, [], pos, ◌≡◌, refl, is_some, to_lower,
  contains, equal_fold, has_prefix, trim_prefix,
}
use zicnode.Panel.Config.{CertInfo}
use zicnode.Node.Cert.{
  Certificate, present, CertMetadata, Files, World, metadata_from_certificate, validate_cert_paths,
  validate_auto_cert_target, is_self_signed_certificate,
}
use zicnode.Node.Cert.Request.{request_cert, normalize_cert_info, request_cert_and_report}
use zicnode.Node.Cert.Described.{request_cert-described}
use zicnode.Node.Cert.Fallback.{FallsBack, fallback-renews}

abbrev own : String → Certificate
own digest = record {
  not_before = pos 0;
  not_after = pos 1000000000000000000;
  fits = λ target. true;
  same_subject_and_issuer = true;
  signs_itself = true;
  sha256 = digest;
  sha256_hex = digest;
  public_key_sha256 = digest;
}

abbrev world : World
world = record {
  now = pos 1;
  parse_ip = λ s. none;
  url_host = λ s. "";
  split_host = λ s. none;
  issue = λ challenge target. none;
  generate = λ target. some (own "y");
  writes = true;
}

abbrev settings : CertInfo
settings = record {
  cert_mode = "auto";
  cert_file = "node.cer";
  key_file = "node.key";
  email = "contact@zicnet.vn";
  cert_domain = "example.org";
  dns_env = [];
  provider = "";
  self_fallback = true;
  reject_unknown_sni = false;
}

abbrev recorded : CertMetadata
recorded = metadata_from_certificate world settings "fallback_self" (own "x")

abbrev files : Files
files = record { cert = present (some (own "x")); key = present none; metadata = some recorded }

settings_normal : normalize_cert_info world settings ≡ settings
unfolding normalize_cert_info trim_prefix
settings_normal = refl

target_public : validate_auto_cert_target world "example.org" ≡ none
unfolding validate_auto_cert_target equal_fold to_lower contains has_prefix
target_public = refl

digest_recorded : recorded.sha256 ≡ "x"
unfolding metadata_from_certificate
digest_recorded = refl

self_signed : is_self_signed_certificate (own "x") ≡ true
unfolding is_self_signed_certificate
self_signed = refl

paths_there : validate_cert_paths settings ≡ none
unfolding validate_cert_paths
paths_there = refl

falls_back : FallsBack world settings files (own "x") (own "y")
falls_back = record {
  normal = settings_normal;
  auto = refl;
  paths = paths_there;
  target = target_public;
  self_fallback = refl;
  not_issued = refl;
  generated = refl;
  cert = refl;
  key = refl;
  self_signed = self_signed;
  metadata = recorded;
  recorded = refl;
  sha256 = digest_recorded;
}

fallback-renews_example :
    let r = request_cert_and_report world true true "n" settings files in
    (r.outcome.files.cert ≡ present (some (own "y"))) × (is_some r.event ≡ true)
fallback-renews_example =
    fallback-renews world "n" settings files (own "x") (own "y") falls_back
      (λ p. ground (arith, (str_iff "x" "y").1 p))

abbrev made : CertMetadata
made = metadata_from_certificate world settings "fallback_self" (own "y")

made_there : (request_cert world settings files).metadata ≡ some made
unfolding request_cert trim_prefix equal_fold contains has_prefix ◌+ℤ◌
made_there = refl

made_well : (request_cert world settings files).error ≡ none
unfolding request_cert trim_prefix equal_fold contains has_prefix ◌+ℤ◌
made_well = refl

request_cert-described_example :
    (x : Certificate) × ((request_cert world settings files).files.cert ≡ present (some x))
    × (made ≡ metadata_from_certificate world (normalize_cert_info world settings) made.source x)
request_cert-described_example =
    request_cert-described world settings files made made_there made_well
