-- ===== src/Json/Tests.antt =====
-- Canonical text of concrete values.
use xr_browser.Prelude.{◌≡◌, refl, true, [], ◌∷◌, codes, decimal}
use xr_browser.Json.{Json, bool, int, neg, str, arr, obj, end, field, arr_of, canonical}
use xr_browser.Json.Ascii.{IsPrintable, HasPlainFloats, canonical-IsPrintable}

abbrev sample : Json
sample = obj (
    field (codes "b") (arr (arr_of (int 1 ∷ neg 1 ∷ bool true ∷ [])))
      (field (codes "a") (str (b'"' ∷ 0x1f600 ∷ [])) end))

sorted_and_escaped : canonical sample ≡ codes "{\"a\":\"\\\"\\ud83d\\ude00\",\"b\":[1,-2,true]}"
unfolding canonical decimal
sorted_and_escaped = refl

canonical-IsPrintable_example : IsPrintable (canonical sample)
unfolding HasPlainFloats
canonical-IsPrintable_example = canonical-IsPrintable sample ((tt, (tt, (tt, tt))), (tt, tt))
