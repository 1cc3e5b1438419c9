-- ===== src/Node/Cert/Fallback.antt =====
-- node/cert.go, mode "auto": a renewal while the issuer fails.
use zicnode.Prelude.{
  Bool, true, false, not, ◌&&◌, ◌||◌, String, Option, none, some, ◌≡◌, ◌≢◌, refl, sym, ap, ◌∙◌,
  arith, is_some, if◌then◌else◌, ◌==◌, string_key, str_iff, ℤ, subst,
}
use zicnode.Panel.Config.{CertInfo}
use zicnode.Node.Cert.{
  Certificate, present, CertMetadata, Files, World, is_self_signed_certificate, is_good,
  certificate_ready, not_ready, metadata_from_certificate, renew_before, validate_cert_paths,
  validate_auto_cert_target, auto_cert_challenge, cert_metadata_changed,
}
use zicnode.Node.Cert.Described.{write-cert}
use zicnode.Node.Cert.Request.{
  Outcome, event_if, described, with_certificate, request_auto_cert, request_by_mode, request_cert,
  normalize_cert_info, request_cert_and_report,
}

-- A node in the mode "auto" that runs on a certificate of its own making, as its metadata say, while
-- the issuer fails.
pub record FallsBack (w : World) (c : CertInfo) (f : Files) (x y : Certificate) : Type 0 where
  pub normal : normalize_cert_info w c ≡ c
  pub auto : c.cert_mode ≡ "auto"
  pub paths : validate_cert_paths c ≡ none
  pub target : validate_auto_cert_target w c.cert_domain ≡ none
  pub self_fallback : c.self_fallback ≡ true
  pub not_issued : w.issue (auto_cert_challenge w c).0 c.cert_domain ≡ none
  pub generated : w.generate c.cert_domain ≡ some y
  pub cert : f.cert ≡ present (some x)
  pub key : f.key ≡ present none
  pub self_signed : is_self_signed_certificate x ≡ true
  pub metadata : CertMetadata
  pub recorded : f.metadata ≡ some metadata
  pub sha256 : metadata.sha256 ≡ x.sha256

fourth :
    (a b c d : Bool) (o p q r s : Outcome)
    → a ≡ false
    → b ≡ false
    → c ≡ false
    → d ≡ true
    → (if a then o else if b then p else if c then q else if d then r else s) ≡ r
fourth a b c d o p q r s h i j k = rw (h, i, j, k) refl

event_asked :
    (b : Bool) (tag : String) (m : Option CertMetadata)
    → b ≡ true
    → is_some (event_if (b && true) tag m) ≡ true
event_asked true tag m h = refl
event_asked false tag m h = ground (arith, h)

module _ (w : World) (c : CertInfo) (f : Files) (x y : Certificate) where
  not_good : (min : ℤ) → is_self_signed_certificate x ≡ true → is_good w c min false x ≡ false
  unfolding is_good
  not_good min h = ground (arith, h)

  renewed : (min : ℤ) → FallsBack w c f x y → certificate_ready w c min false f ≡ not_ready
  unfolding certificate_ready
  renewed min h = rw (h.cert, h.key) (rw (not_good min h.self_signed) refl)

  auto_described :
      FallsBack w c f x y
      → request_auto_cert w c f ≡ described w c "fallback_self" y (with_certificate y f)
  unfolding request_auto_cert
  auto_described h =
      rw
        (
          h.paths,
          h.target,
          renewed (renew_before w c.cert_domain) h,
          h.not_issued,
          h.self_fallback,
          h.generated,
        )
        refl

  by_mode_auto : c.cert_mode ≡ "auto" → request_by_mode w c f ≡ request_auto_cert w c f
  unfolding request_by_mode
  by_mode_auto h =
      fourth (c.cert_mode == "none" || c.cert_mode == "") (c.cert_mode == "file")
        (c.cert_mode == "dns" || c.cert_mode == "http") (c.cert_mode == "auto") _ _ _ _ _
        (ap (λ m. m == "none" || m == "") h) (ap (λ m. m == "file") h)
        (ap (λ m. m == "dns" || m == "http") h) (ap (λ m. m == "auto") h)

  request_described :
      FallsBack w c f x y
      → request_cert w c f ≡ described w c "fallback_self" y (with_certificate y f)
  unfolding request_cert
  request_described h =
      ap (λ c. request_by_mode w c f) h.normal ∙ by_mode_auto h.auto ∙ auto_described h

  changed_sha256 :
      (m : CertMetadata) (source : String)
      → m.sha256 ≡ x.sha256
      → x.sha256 ≢ y.sha256
      → cert_metadata_changed (some m) (some (metadata_from_certificate w c source y)) ≡ true
  unfolding cert_metadata_changed metadata_from_certificate
  changed_sha256 m source p q = ground (arith, str_iff m.sha256 y.sha256, p, q)

-- While the issuer fails, every renewal of a node in the mode "auto" that runs on a certificate of
-- its own making replaces that certificate, however long it is still valid, by a new one, and asks
-- for a reload if the two have different digests.
pub fallback-renews :
    (w : World) (tag : String) (c : CertInfo) (f : Files) (x y : Certificate)
    → FallsBack w c f x y
    → x.sha256 ≢ y.sha256
    → let r = request_cert_and_report w true true tag c f in
      (r.outcome.files.cert ≡ present (some y)) × (is_some r.event ≡ true)
unfolding request_cert_and_report
fallback-renews w tag c f x y h d =
    subst
      (λ o.
        (o.files.cert ≡ present (some y))
        × (is_some (
              event_if
                (not (is_some o.error) && cert_metadata_changed f.metadata o.metadata && true) tag
                o.metadata)
            ≡ true))
      (sym (request_described w c f x y h))
      (
        write-cert w c w.writes (metadata_from_certificate w c "fallback_self" y)
            (with_certificate y f),
        event_asked
            (cert_metadata_changed f.metadata
              (some (metadata_from_certificate w c "fallback_self" y)))
            tag (some (metadata_from_certificate w c "fallback_self" y))
            (ap
                (λ o.
                  cert_metadata_changed o (some (metadata_from_certificate w c "fallback_self" y)))
                h.recorded
              ∙ changed_sha256 w c f x y h.metadata "fallback_self" h.sha256 d),
      )
