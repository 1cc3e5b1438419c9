-- ===== src/Panel/Report/Total.antt =====
-- api/zicboard/user.go, `ReportUserTraffic`: each uid is reported once, with all of its rows.
use zicnode.Prelude.{
  ◌≡◌, refl, ap, inl, inr, Option-cases, ◌∙◌, Option, none, some, List, [], ◌∷◌, ℤ, add64, Map,
  load, each, int_key, int_beq_iff, arith, load-store, Distinct, store-Distinct, each_inv, ◌==◌,
  if◌then◌else◌,
}
use zicnode.Panel.User.{UserTraffic}
use zicnode.Panel.Report.{add_row, report_body}

-- The sums of the rows of a uid, after those that are there.
abbrev pub total : ℤ → List UserTraffic → Option (ℤ × ℤ) → Option (ℤ × ℤ)
total uid [] sums = sums
total uid (t ∷ ts) sums =
    if t.uid == uid
    then total uid ts (
        some (elim sums [
          | none ↦ (t.upload, t.download)
          | some s ↦ (add64 s.0 t.upload, add64 s.1 t.download)
        ]))
    else total uid ts sums

add_row-at :
    (uid : ℤ) (t : UserTraffic) (grouped : Map ℤ (ℤ × ℤ))
    → load uid (add_row t grouped) ≡ (
        if t.uid == uid
        then some (elim (load uid grouped) [
          | none ↦ (t.upload, t.download)
          | some s ↦ (add64 s.0 t.upload, add64 s.1 t.download)
        ])
        else load uid grouped)
unfolding add_row
add_row-at uid t grouped = elim (Option-cases (load t.uid grouped)) [
  | inl e ↦
      rw (e, add_row) ground
        (arith, e, int_beq_iff t.uid uid, load-store t.uid uid (t.upload, t.download) grouped)
  | inr (s, e) ↦
      rw (e, add_row) ground
        (
          arith,
          e,
          int_beq_iff t.uid uid,
          load-store t.uid uid (add64 s.0 t.upload, add64 s.1 t.download) grouped,
        )
]

each-total :
    (uid : ℤ) (ts : List UserTraffic) (grouped : Map ℤ (ℤ × ℤ))
    → load uid (each add_row ts grouped) ≡ total uid ts (load uid grouped)
unfolding each
each-total uid [] grouped = refl
each-total uid (t ∷ ts) grouped =
    each-total uid ts (add_row t grouped)
    ∙ ap (total uid ts) (add_row-at uid t grouped)
    ∙ ground arith

add_row-Distinct :
    (t : UserTraffic) (grouped : Map ℤ (ℤ × ℤ)) → Distinct grouped → Distinct (add_row t grouped)
unfolding add_row
add_row-Distinct t grouped d = elim (Option-cases (load t.uid grouped)) [
  | inl e ↦ rw (e, add_row) (store-Distinct t.uid (t.upload, t.download) grouped d)
  | inr (s, e) ↦
      rw (e, add_row) (store-Distinct t.uid (add64 s.0 t.upload, add64 s.1 t.download) grouped d)
]

-- The body has one entry for each uid that has a row, and none for any other; the entry has the
-- sums, modulo 2 ^ 64, of the upload and of the download of all its rows.
pub report_body-total :
    (uid : ℤ) (traffic : List UserTraffic)
    → (load uid (report_body traffic) ≡ total uid traffic none) × Distinct (report_body traffic)
unfolding report_body load
report_body-total uid traffic =
    (each-total uid traffic [], each_inv Distinct add_row add_row-Distinct traffic [] tt)
