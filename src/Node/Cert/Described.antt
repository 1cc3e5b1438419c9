-- ===== src/Node/Cert/Described.antt =====
-- node/cert.go: what a request that succeeds says of the certificate.
use zicnode.Prelude.{
  subst, Bool, true, false, String, Option, none, some, ◌≡◌, refl, ap, ◌∙◌, arith, if◌then◌else◌,
  ◌==◌, ◌||◌, string_key,
}
use zicnode.Panel.Config.{CertInfo}
use zicnode.Node.Cert.{
  Certificate, File, missing, hidden, present, CertMetadata, Files, World, CertError,
  load_certificate, Readiness, ready, not_ready, broken, certificate_ready,
  metadata_from_certificate, renew_before, domain_renew_before, validate_cert_paths,
  validate_auto_cert_target, auto_cert_challenge, ensure_cert_files_exist, managed_cert_source,
  unreadable, not_issued, not_generated, unsupported,
}
use zicnode.Node.Cert.Request.{
  Outcome, failing, described, from_file_written, metadata_from_cert_file, with_certificate, made,
  if_ready, unless_error, target_error, generate_and_store_self_cert, request_managed_cert,
  request_auto_cert, request_self_cert, request_file_cert, request_by_mode, request_cert,
  normalize_cert_info,
}

some_inj {ℓ} : {A : Type ℓ} (x y : A) → some x ≡ some y → x ≡ y
some_inj x y h = ground (arith, h)

loaded_file :
    (f : File) (x : Certificate)
    → elim f [ present c ↦ c | _ ↦ none ] ≡ some x
    → f ≡ present (some x)
loaded_file missing x h = ground (arith, h)
loaded_file hidden x h = ground (arith, h)
loaded_file (present c) x h = ap present h

-- Metadata without an error are those of the certificate in the file.
module _ (w : World) (c : CertInfo) where
  abbrev Sound : Outcome → Type 0
  Sound o =
      (m : CertMetadata)
      → o.metadata ≡ some m
      → o.error ≡ none
      → (x : Certificate) × (o.files.cert ≡ present (some x))
        × (m ≡ metadata_from_certificate w c m.source x)

  failing-Sound : (source : String) (e : CertError) (f : Files) → Sound (failing w c source e f)
  failing-Sound source e f m p q = ground (arith, q)

  pub write-cert :
      (b : Bool) (m : CertMetadata) (f : Files)
      → (if b then record f { metadata = some m } else f).cert ≡ f.cert
  write-cert true m f = refl
  write-cert false m f = refl

  of_certificate :
      (source : String) (x : Certificate) (m : CertMetadata)
      → some (metadata_from_certificate w c source x) ≡ some m
      → m ≡ metadata_from_certificate w c m.source x
  unfolding metadata_from_certificate
  of_certificate source x m p =
      subst (λ m. m ≡ metadata_from_certificate w c m.source x)
        (some_inj (metadata_from_certificate w c source x) m p) refl

  described-Sound :
      (source : String) (x : Certificate) (f : Files)
      → f.cert ≡ present (some x)
      → Sound (described w c source x f)
  described-Sound source x f h m p q = (
    x,
    write-cert w.writes (metadata_from_certificate w c source x) f ∙ h,
    of_certificate source x m p,
  )

  loaded : (f : Files) (x : Certificate) → load_certificate f ≡ some x → f.cert ≡ present (some x)
  unfolding load_certificate
  loaded f x h = loaded_file f.cert x h

  from_file_written-Sound :
      (source : String) (o : Option Certificate) (f : Files)
      → load_certificate f ≡ o
      → Sound (from_file_written w c source o f)
  from_file_written-Sound source none f h = failing-Sound source unreadable f
  from_file_written-Sound source (some x) f h = described-Sound source x f (loaded f x h)

  metadata_from_cert_file-Sound :
      (source : String) (o : Option Certificate) (f : Files)
      → load_certificate f ≡ o
      → Sound (metadata_from_cert_file w c source o f)
  unfolding metadata_from_cert_file
  metadata_from_cert_file-Sound source none f h = failing-Sound source unreadable f
  metadata_from_cert_file-Sound source (some x) f h =
      λ m p q. (x, loaded f x h, of_certificate source x m p)

  made-Sound :
      (source : String) (o : Option Certificate) (f : Files) (otherwise : Outcome)
      → Sound otherwise
      → Sound (made w c source o f otherwise)
  made-Sound source none f otherwise h = h
  made-Sound source (some x) f otherwise h = described-Sound source x (with_certificate x f) refl

  if_ready-Sound :
      (source : String) (r : Readiness) (f : Files) (otherwise : Outcome)
      → Sound otherwise
      → Sound (if_ready w c source r f otherwise)
  if_ready-Sound source ready f otherwise h =
      from_file_written-Sound source (load_certificate f) f refl
  if_ready-Sound source not_ready f otherwise h = h
  if_ready-Sound source (broken e) f otherwise h = failing-Sound source e f

  unless_error-Sound :
      (source : String) (e : Option CertError) (f : Files) (otherwise : Outcome)
      → Sound otherwise
      → Sound (unless_error w c source e f otherwise)
  unless_error-Sound source none f otherwise h = h
  unless_error-Sound source (some e) f otherwise h = failing-Sound source e f

  generated-Sound :
      (source : String) (f : Files) → Sound (generate_and_store_self_cert w c source f)
  unfolding generate_and_store_self_cert
  generated-Sound source f =
      made-Sound source (w.generate c.cert_domain) f _ (failing-Sound source not_generated f)

  choice-Sound : (b : Bool) (o o' : Outcome) → Sound o → Sound o' → Sound (if b then o else o')
  choice-Sound true o o' h k = h
  choice-Sound false o o' h k = k

  managed-Sound :
      (challenge source : String) (allow : Bool) (f : Files)
      → Sound (request_managed_cert w c challenge source allow f)
  unfolding request_managed_cert
  managed-Sound challenge source allow f = unless_error-Sound source (validate_cert_paths c) f _ (
      unless_error-Sound source (target_error c) f _ (
        if_ready-Sound source (certificate_ready w c (renew_before w c.cert_domain) allow f) f _ (
          made-Sound source (w.issue challenge c.cert_domain) f _
            (failing-Sound source not_issued f))))

  auto-Sound : (f : Files) → Sound (request_auto_cert w c f)
  unfolding request_auto_cert
  auto-Sound f =
      let by = auto_cert_challenge w c in
      unless_error-Sound "auto" (validate_cert_paths c) f _ (
        unless_error-Sound "auto" (validate_auto_cert_target w c.cert_domain) f _ (
          if_ready-Sound by.1 (certificate_ready w c (renew_before w c.cert_domain) false f) f _ (
            made-Sound by.1 (w.issue by.0 c.cert_domain) f _ (
              choice-Sound c.self_fallback _ _ (generated-Sound "fallback_self" f)
                (failing-Sound by.1 not_issued f)))))

  self-Sound : (f : Files) → Sound (request_self_cert w c f)
  unfolding request_self_cert
  self-Sound f = unless_error-Sound "self" (validate_cert_paths c) f _ (
      unless_error-Sound "self" (target_error c) f _ (
        if_ready-Sound "self" (certificate_ready w c domain_renew_before true f) f _
          (generated-Sound "self" f)))

  file-Sound : (f : Files) → Sound (request_file_cert w c f)
  unfolding request_file_cert
  file-Sound f = unless_error-Sound "file" (validate_cert_paths c) f _ (
      unless_error-Sound "file" (ensure_cert_files_exist f) f _
        (metadata_from_cert_file-Sound "file" (load_certificate f) f refl))

  by_mode-Sound : (f : Files) → Sound (request_by_mode w c f)
  unfolding request_by_mode
  by_mode-Sound f =
      choice-Sound (c.cert_mode == "none" || c.cert_mode == "") _ _ (λ m p q. ground (arith, p))
        (choice-Sound (c.cert_mode == "file") _ _ (file-Sound f) (
          choice-Sound (c.cert_mode == "dns" || c.cert_mode == "http") _ _
            (managed-Sound c.cert_mode (managed_cert_source w c.cert_mode c.cert_domain) false f)
            (choice-Sound (c.cert_mode == "auto") _ _ (auto-Sound f) (
              choice-Sound (c.cert_mode == "self") _ _ (self-Sound f)
                (failing-Sound "" unsupported f)))))

-- A request that ends without an error and gives metadata, in whatever mode and whether it found,
-- issued or generated a certificate, leaves a readable certificate in the file, and its metadata are
-- those of that certificate.
pub request_cert-described :
    (w : World) (c : CertInfo) (f : Files) (m : CertMetadata)
    → (request_cert w c f).metadata ≡ some m
    → (request_cert w c f).error ≡ none
    → (x : Certificate) × ((request_cert w c f).files.cert ≡ present (some x))
      × (m ≡ metadata_from_certificate w (normalize_cert_info w c) m.source x)
unfolding request_cert
request_cert-described w c f = by_mode-Sound w (normalize_cert_info w c) f
