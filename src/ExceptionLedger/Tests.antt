-- ===== src/ExceptionLedger/Tests.antt =====
-- A page with the three ledgers: one toggled site, disclosed to the cosmetic surface, and one waiver.
use xr_browser.Prelude.{
  plus, minus, ◌≡◌, ◌≢◌, ◌↔◌, refl, Text, none, some, List, [], ◌∷◌, codes, if◌then◌else◌,
  split_lines, split, split_from, find, strip, lstrip, text_eq, partition, has_text, starts_with,
  store, lookup,
}
use xr_browser.Json.{text_le}
use xr_browser.ExceptionLedger.{
  lstrip_bars, cells_of, row_of, is_row, section_rows, section, scope_ledger_rows, add_waiver,
  waiver_loop, ledger_rows,
}
use xr_browser.ExceptionLedger.Scope.{scope_loop, parse_scope_cell}
use xr_browser.ExceptionLedger.Rows.{
  Reader, expiry_failures, toggle_failures, common_failures, shield_failures, check_shield,
  cosmetic_failures, check_cosmetic, expired,
}
use xr_browser.ExceptionLedger.Matrix.{
  Cell, insert_mechanism, exception_mechs, date_failures, waiver_failures, mech_failures, orphans,
  check, past, orphan,
}
use xr_browser.ExceptionLedger.Lawful.{AreLawful, check_cosmetic-check_shield-eq-nil_iff}
use xr_browser.ExceptionLedger.Waived.{AreWaived, check-eq-nil_iff}

-- Cells of these tests: "-1" and "9", and one date.
abbrev reader : Reader
reader = record {
  int_of = λ t.
      if text_eq t (codes "-1")
      then some (minus 0)
      else (if text_eq t (codes "9") then some (plus 9) else none);
  date_of = λ t. if text_eq t (codes "2026-09-01") then some 600 else none;
}

abbrev page : Text
page =
    codes
      "## §1.13 exception ledger rows\n| mechanism | owner | expiry | note |\n|---|---|---|---|\n| dns | ann | 2026-09-01 | none |\n## shield exception ledger rows\n| scope_id | scope | reason | expiry | owner |\n|---|---|---|---|---|\n| site-toggle:a.test | site=a.test | user-site-toggle | 9 | ann |\n## cosmetic exception ledger rows\n| scope_id | scope | reason | expiry | owner |\n|---|---|---|---|---|\n| site-toggle:a.test | site=a.test | user-site-toggle | -1 | ann |\n"

abbrev cells : List Cell
cells =
    record { mechanism = codes "dns"; verdict = codes "EXCEPTION" }
    ∷ record { mechanism = codes "gpu"; verdict = codes "ISOLATED" }
    ∷ []

ledger_run : Unit {0}
unfolding check check_shield check_cosmetic ledger_rows waiver_loop add_waiver scope_ledger_rows
    section section_rows is_row row_of cells_of lstrip_bars parse_scope_cell scope_loop
    expiry_failures toggle_failures common_failures shield_failures cosmetic_failures
    exception_mechs insert_mechanism mech_failures waiver_failures date_failures orphans split_lines
    text_eq strip lstrip starts_with has_text split split_from find partition store lookup text_le
ledger_run = tt

expired_page : check_shield reader 9 (some page) ≡ (codes "site-toggle:a.test", expired) ∷ []
unfolding ledger_run
expired_page = refl

stale_page : check reader 601 (some page) (some cells) ≡ past (codes "dns") ∷ []
unfolding ledger_run
stale_page = refl

orphan_row : check reader 600 (some page) (some []) ≡ orphan (codes "dns") ∷ []
unfolding ledger_run
orphan_row = refl

-- A row whose reason has "---" is not read as a row, so nothing of it is checked.
abbrev dashed : Text
dashed = codes "## shield exception ledger rows\n| a | site= | trial --- late | soon | |\n"

dashed_row : check_shield reader 0 (some dashed) ≡ []
unfolding ledger_run
dashed_row = refl

check_cosmetic-check_shield-eq-nil_iff_example :
    ((check_shield reader 8 (some page) ≡ []) × (check_cosmetic reader 8 (some page) ≡ []))
    ↔ AreLawful reader 8 page
check_cosmetic-check_shield-eq-nil_iff_example =
    check_cosmetic-check_shield-eq-nil_iff reader 8 page

page_passes : (check_shield reader 8 (some page) ≡ []) × (check_cosmetic reader 8 (some page) ≡ [])
unfolding ledger_run
page_passes = (refl, refl)

check-eq-nil_iff_example :
    (check reader 600 (some page) (some cells) ≡ [])
    ↔ ((ledger_rows page ≢ []) × AreWaived reader 600 (ledger_rows page) cells)
check-eq-nil_iff_example = check-eq-nil_iff reader 600 page cells

waivers_pass : check reader 600 (some page) (some cells) ≡ []
unfolding ledger_run
waivers_pass = refl
