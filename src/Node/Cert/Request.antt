-- ===== src/Node/Cert/Request.antt =====
-- node/cert.go: the requests for a certificate, by mode, and the report with its reload.
use zicnode.Prelude.{
  Bool, true, false, not, ◌&&◌, ◌||◌, String, Option, none, some, [], ◌∷◌, trim_space, to_lower,
  is_some, Map, string_key, ◌==◌, if◌then◌else◌,
}
use zicnode.Panel.Config.{CertInfo}
use zicnode.Server.Event.{Event, cert_metadata_changed as cert_event}
use zicnode.Node.Cert.{
  Certificate, present, CertMetadata, Files, World, CertError, unreadable, empty_target, not_issued,
  not_generated, unsupported, domain_renew_before, normalize_cert_target, renew_before,
  validate_auto_cert_target, auto_cert_challenge, managed_cert_source, validate_cert_paths,
  ensure_cert_files_exist, load_certificate, Readiness, ready, not_ready, broken, certificate_ready,
  metadata_from_certificate, basic_cert_metadata, short_hash, cert_metadata_changed,
}

-- The metadata, the error and the files that are left.
pub record Outcome : Type 0 where
  pub metadata : Option CertMetadata
  pub error : Option CertError
  pub files : Files

abbrev pub failing : World → CertInfo → String → CertError → Files → Outcome
failing w c source e f = record {
  metadata = some (basic_cert_metadata w c source);
  error = some e;
  files = f;
}

-- The metadata that are written, if they can be.
abbrev pub write_metadata : World → CertMetadata → Files → Files
write_metadata w m f = if w.writes then record f { metadata = some m } else f

abbrev pub described : World → CertInfo → String → Certificate → Files → Outcome
described w c source x f =
    let m = metadata_from_certificate w c source x in
    record { metadata = some m; error = none; files = write_metadata w m f }

-- metadataFromCertFile, and the same with the metadata written.
unfoldable pub metadata_from_cert_file :
    World → CertInfo → String → Option Certificate → Files → Outcome
unfolding metadata_from_certificate basic_cert_metadata
metadata_from_cert_file w c source none f = failing w c source unreadable f
metadata_from_cert_file w c source (some x) f = record {
  metadata = some (metadata_from_certificate w c source x);
  error = none;
  files = f;
}

abbrev pub from_file_written : World → CertInfo → String → Option Certificate → Files → Outcome
from_file_written w c source none f = failing w c source unreadable f
from_file_written w c source (some x) f = described w c source x f

abbrev pub with_certificate : Certificate → Files → Files
with_certificate x f = record f { cert = present (some x); key = present none }

-- The certificate that was made, or what else is done.
abbrev pub made : World → CertInfo → String → Option Certificate → Files → Outcome → Outcome
made w c source none f otherwise = otherwise
made w c source (some x) f otherwise = described w c source x (with_certificate x f)

-- The source creates the two files one after the other; one that is partly written when that fails is
-- not modelled, and the files are then left as they were.
unfoldable pub generate_and_store_self_cert : World → CertInfo → String → Files → Outcome
unfolding metadata_from_certificate basic_cert_metadata
generate_and_store_self_cert w c source f =
    made w c source (w.generate c.cert_domain) f (failing w c source not_generated f)

-- A certificate that is ready is described; else a new one is made.
abbrev pub if_ready : World → CertInfo → String → Readiness → Files → Outcome → Outcome
if_ready w c source ready f otherwise = from_file_written w c source (load_certificate f) f
if_ready w c source not_ready f otherwise = otherwise
if_ready w c source (broken e) f otherwise = failing w c source e f

abbrev pub unless_error : World → CertInfo → String → Option CertError → Files → Outcome → Outcome
unless_error w c source none f otherwise = otherwise
unless_error w c source (some e) f otherwise = failing w c source e f

abbrev pub target_error : CertInfo → Option CertError
target_error c = if c.cert_domain == "" then some empty_target else none

unfoldable pub request_managed_cert : World → CertInfo → String → String → Bool → Files → Outcome
unfolding validate_cert_paths certificate_ready renew_before load_certificate
    metadata_from_certificate basic_cert_metadata
request_managed_cert w c challenge source allow_self_signed f =
    unless_error w c source (validate_cert_paths c) f (
      unless_error w c source (target_error c) f (
        if_ready w c source
          (certificate_ready w c (renew_before w c.cert_domain) allow_self_signed f) f
          (made w c source (w.issue challenge c.cert_domain) f (failing w c source not_issued f))))

abbrev pub fallback : World → CertInfo → String → Files → Outcome
fallback w c source f =
    if c.self_fallback
    then generate_and_store_self_cert w c "fallback_self" f
    else failing w c source not_issued f

unfoldable pub request_auto_cert : World → CertInfo → Files → Outcome
unfolding validate_cert_paths validate_auto_cert_target auto_cert_challenge certificate_ready
    renew_before load_certificate metadata_from_certificate basic_cert_metadata
    generate_and_store_self_cert
request_auto_cert w c f =
    let by = auto_cert_challenge w c in
    unless_error w c "auto" (validate_cert_paths c) f (
      unless_error w c "auto" (validate_auto_cert_target w c.cert_domain) f (
        if_ready w c by.1 (certificate_ready w c (renew_before w c.cert_domain) false f) f
          (made w c by.1 (w.issue by.0 c.cert_domain) f (fallback w c by.1 f))))

unfoldable pub request_self_cert : World → CertInfo → Files → Outcome
unfolding validate_cert_paths certificate_ready load_certificate metadata_from_certificate
    basic_cert_metadata generate_and_store_self_cert
request_self_cert w c f = unless_error w c "self" (validate_cert_paths c) f (
    unless_error w c "self" (target_error c) f (
      if_ready w c "self" (certificate_ready w c domain_renew_before true f) f
        (generate_and_store_self_cert w c "self" f)))

-- A file of the operator is used as it is.
unfoldable pub request_file_cert : World → CertInfo → Files → Outcome
unfolding validate_cert_paths ensure_cert_files_exist metadata_from_cert_file load_certificate
request_file_cert w c f = unless_error w c "file" (validate_cert_paths c) f (
    unless_error w c "file" (ensure_cert_files_exist f) f
      (metadata_from_cert_file w c "file" (load_certificate f) f))

-- The settings after their normalization, which stays in the node's information.
unfoldable pub normalize_cert_info : World → CertInfo → CertInfo
unfolding normalize_cert_target trim_space to_lower
normalize_cert_info w c = record c {
  cert_mode = to_lower (trim_space c.cert_mode);
  cert_domain = normalize_cert_target w c.cert_domain;
  email = if trim_space c.email == "" then "contact@zicnet.vn" else c.email;
}

unfoldable pub request_by_mode : World → CertInfo → Files → Outcome
unfolding request_file_cert request_managed_cert request_auto_cert request_self_cert
    managed_cert_source
request_by_mode w c f =
    if c.cert_mode == "none" || c.cert_mode == ""
    then record { metadata = none; error = none; files = f }
    else if c.cert_mode == "file"
    then request_file_cert w c f
    else if c.cert_mode == "dns" || c.cert_mode == "http"
    then request_managed_cert w c c.cert_mode (managed_cert_source w c.cert_mode c.cert_domain)
        false f
    else if c.cert_mode == "auto"
    then request_auto_cert w c f
    else if c.cert_mode == "self"
    then request_self_cert w c f
    else failing w c "" unsupported f

unfoldable pub request_cert : World → CertInfo → Files → Outcome
unfolding normalize_cert_info request_by_mode
request_cert w c f = request_by_mode w (normalize_cert_info w c) f

-- What is reported to the panel: whether the status is "ok", with the metadata. Nothing is reported
-- without metadata.
pub record CertReport : Type 0 where
  pub is_ok : Bool
  pub metadata : CertMetadata
  pub error : Option CertError

unfoldable pub report_cert_status : Option CertMetadata → Option CertError → Option CertReport
report_cert_status none e = none
report_cert_status (some m) e = some (record { is_ok = not (is_some e); metadata = m; error = e })

abbrev details_of : Option CertMetadata → Map String String
details_of none = []
details_of (some m) =
    ("target", m.target)
    ∷ ("source", m.source)
    ∷ ("sha256_hex", short_hash m.sha256_hex)
    ∷ ("public_key_sha256", short_hash m.public_key_sha256)
    ∷ []

pub record Requested : Type 0 where
  pub outcome : Outcome
  pub report : Option CertReport
  pub event : Option Event

abbrev pub event_if : Bool → String → Option CertMetadata → Option Event
event_if false tag m = none
event_if true tag m =
    some (record { reason = cert_event; node_tag = tag; task_name = ""; details = details_of m })

-- `reload_on_change` is whether a new certificate asks for a reload; `has_channel` whether there is
-- a channel to ask through.
unfoldable pub request_cert_and_report : World → Bool → Bool → String → CertInfo → Files → Requested
unfolding request_cert report_cert_status cert_metadata_changed short_hash
request_cert_and_report w reload_on_change has_channel tag c f =
    let o = request_cert w c f in
    record {
      outcome = o;
      report = report_cert_status o.metadata o.error;
      event =
          event_if
            (reload_on_change
              && not (is_some o.error)
              && cert_metadata_changed f.metadata o.metadata
              && has_channel)
            tag o.metadata;
    }
