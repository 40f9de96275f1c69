-- ===== src/Parser/Tests.antt =====
-- internal/parser and the scanners of arrays and hstores on small texts.
use go_pg.Base.{◌≡◌, ◌∷◌, [], some, Bytes, codes, arith}
use go_pg.Base.Int.{pos, negsuc}
use go_pg.Types.Append.{append_slice_int, append_slice_string, append_map_string_string}
use go_pg.Message.Frames.{NoZero}
use go_pg.Parser.{read_substring}
use go_pg.Parser.Array.{decode_slice_string, decode_slice_int, ok}
use go_pg.Parser.Hstore.{Scanned, bad}
use go_pg.Parser.IntTrip.{AllInt, decode-append_slice_int}
use go_pg.Parser.RoundTrip.{decode-append_slice_string}
use go_pg.Parser.HstoreTrip.{scan_text, scan-append_map_string_string, empty_value_refused}

abbrev quote_and_comma : Bytes
quote_and_comma = codes "a\",\\"

quote_and_comma-NoZero : NoZero quote_and_comma
quote_and_comma-NoZero = ground arith

key-NoZero : NoZero (codes "k")
key-NoZero = ground arith

decode-append_slice_string_example :
    decode_slice_string (append_slice_string [] (some (quote_and_comma ∷ [] ∷ [])) 0)
    ≡ ok (some (quote_and_comma ∷ [] ∷ []))
decode-append_slice_string_example =
    decode-append_slice_string (quote_and_comma ∷ [] ∷ []) (quote_and_comma-NoZero, (tt, tt))

scan-append_map_string_string_example :
    scan_text (append_map_string_string [] (some ((codes "k", quote_and_comma) ∷ [])) 0)
    ≡ go_pg.Parser.Hstore.ok ((codes "k", quote_and_comma) ∷ [])
scan-append_map_string_string_example =
    scan-append_map_string_string ((codes "k", quote_and_comma) ∷ [])
      (ground arith, key-NoZero, ground arith, quote_and_comma-NoZero, tt)

empty_value_refused_example :
    scan_text (append_map_string_string [] (some ((codes "k", []) ∷ [])) 0) ≡ bad
empty_value_refused_example = empty_value_refused (codes "k") [] key-NoZero (ground arith)

some_ints-AllInt : AllInt (pos 0 ∷ negsuc 6 ∷ pos 1234 ∷ [])
some_ints-AllInt = (omega arith, (omega arith, (omega arith, tt)))

decode-append_slice_int_example :
    decode_slice_int (append_slice_int [] (some (pos 0 ∷ negsuc 6 ∷ pos 1234 ∷ [])) 0)
    ≡ ok (some (pos 0 ∷ negsuc 6 ∷ pos 1234 ∷ []))
decode-append_slice_int_example =
    decode-append_slice_int (pos 0 ∷ negsuc 6 ∷ pos 1234 ∷ []) some_ints-AllInt
