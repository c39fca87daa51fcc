-- ===== src/Common/Hashing/Tests.antt =====
-- Concrete payloads of `sha256_hex` (packages/common/ids.py).
use native.Mathlib.Decide.{dec_lt}
use nervora.Base.{true, ◌≡◌, ◌↔◌, refl, arith, eq_iff}
use nervora.Json.{pos, negsuc, float, Json, null, bool, int, str, list, dict, nil, cons, end, entry}
use nervora.Json.Sorting.{insert_item}
use nervora.Numbers.Decimal.{int_text}
use nervora.Common.Hashing.{dumps, sha256_hex, quoted}
use nervora.Common.Hashing.Fractions.{fraction, fraction-PrintsFloats}
use nervora.Common.Hashing.Values.{HasReduced}
use nervora.Common.Hashing.Distinct.{dumps-SameData_iff}
use nervora.Common.Hashing.Stable.{
  SameData, same, dicts, SameDict, entries, swap, trans, sha256_hex-SameData,
}

abbrev changes : Json
changes = dict (entry "tier" (str "gold") (entry "owner" null end))

abbrev changes_swapped : Json
changes_swapped = dict (entry "owner" null (entry "tier" (str "gold") end))

abbrev call : Json
call = dict (entry "tool" (str "crm") (entry "args" changes end))

abbrev call_swapped : Json
call_swapped = dict (entry "args" changes_swapped (entry "tool" (str "crm") end))

written : dumps (λ m k. "") call ≡ "{\"args\":{\"owner\":null,\"tier\":\"gold\"},\"tool\":\"crm\"}"
unfolding dumps insert_item
written = refl

scalars :
    dumps (λ m k. "") (list (cons (bool true) (cons (int (negsuc 11)) (cons (list nil) nil))))
    ≡ "[true,-12,[]]"
unfolding dumps int_text dec_lt
scalars = refl

-- A quote, a line end, a letter beyond ASCII and one beyond 0xFFFF.
escapes : quoted "a\"\né😀" ≡ "\"a\\\"\\n\\u00e9\\ud83d\\ude00\""
unfolding quoted
escapes = refl

sha256_hex-SameData_example :
    (dumps (λ m k. "") call ≡ dumps (λ m k. "") call_swapped)
    × (sha256_hex (λ m k. "") (λ s. s) call ≡ sha256_hex (λ m k. "") (λ s. s) call_swapped)
sha256_hex-SameData_example =
    sha256_hex-SameData (λ m k. "") (λ s. s)
      (dicts (
        trans
          (swap "tool" "args" (str "crm") changes end (λ e. ground (arith, eq_iff "tool" "args")))
          (entries "args"
            (dicts (
              swap "tier" "owner" (str "gold") null end
                (λ e. ground (arith, eq_iff "tier" "owner"))))
            (entries "tool" (same (str "crm")) SameDict.ends))))

-- A payload with the double 1.5, and the same with its keys in another order.
abbrev priced : Json
priced = dict (entry "tool" (str "bill") (entry "amount" (float (pos 3) 1) end))

abbrev priced_swapped : Json
priced_swapped = dict (entry "amount" (float (pos 3) 1) (entry "tool" (str "bill") end))

dumps-SameData_iff_example :
    (dumps fraction priced ≡ dumps fraction priced_swapped) ↔ SameData priced priced_swapped
unfolding HasReduced
dumps-SameData_iff_example =
    dumps-SameData_iff fraction priced priced_swapped fraction-PrintsFloats (tt, (refl, tt))
      (refl, (tt, tt))
