-- ===== src/Panel/Report.antt =====
-- api/zicboard/user.go, `ReportUserTraffic`: the body of the report of the traffic.
pub mod Total
use zicnode.Prelude.{Option, none, some, List, [], ◌∷◌, ℤ, add64, Map, load, store, each, int_key}
use zicnode.Panel.User.{UserTraffic}

-- The rows of one uid are added up.
unfoldable pub add_row : UserTraffic → Map ℤ (ℤ × ℤ) → Map ℤ (ℤ × ℤ)
add_row t grouped = elim (load t.uid grouped) [
  | some (up, down) ↦ store t.uid (add64 up t.upload, add64 down t.download) grouped
  | none ↦ store t.uid (t.upload, t.download) grouped
]

unfoldable pub report_body : List UserTraffic → Map ℤ (ℤ × ℤ)
unfolding add_row
report_body traffic = each add_row traffic []
