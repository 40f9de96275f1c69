-- ===== src/Types/Tests.antt =====
-- types: runs of the appenders and of the reader of command tags.
use go_pg.Base.{◌≡◌, refl, ◌∷◌, ◌++◌, [], none, some, codes, equal, arith}
use go_pg.Base.Int.{pos, negsuc}
use go_pg.Types.Kinds.{int, bytes, ptr, w8, scan_value, append_value, set_int}
use go_pg.Types.Kinds.Words.{Fits, scan_value-cut}
use go_pg.Types.Kinds.Trip.{scan-append}
use go_pg.Types.Append.{append, append_int, ints, texts}
use go_pg.Types.Result.{new_result}
use go_pg.Types.Jsonb.{append_jsonb}
use go_pg.Types.Jsonb.Quoted.{escaped_quote, doubled, append_jsonb-doubled}

insert_tag :
    new_result (codes "INSERT 0 15" ++ 0 ∷ []) 2 ≡ some (record { affected = pos 15; returned = 2 })
unfolding new_result
insert_tag = refl

array_text :
    append [] (texts (some (codes "a'b" ∷ codes "c\"" ∷ []))) 1
    ≡ some (codes "'{\"a''b\",\"c\\\"\"}'")
unfolding append
array_text = refl

int_text : append [] (ints (some (pos 907 ∷ negsuc 9 ∷ []))) 0 ≡ some (codes "{907,-10}")
unfolding append
int_text = refl

jsonb_zero : append_jsonb [] (codes "foo \\u0000 bar") 0 ≡ codes "foo \\\\u0000 bar"
unfolding append_jsonb equal
jsonb_zero = refl

jsonb_escaped_backslash : append_jsonb [] (codes "\\\\\\u0000") 0 ≡ codes "\\\\\\\\u0000"
unfolding append_jsonb equal
jsonb_escaped_backslash = refl

jsonb_quote : append_jsonb [] (codes "{\"a\":\"it's\"}") 1 ≡ codes "'{\"a\":\"it''s\"}'"
unfolding append_jsonb
jsonb_quote = refl

-- Behind a backslash a single quote is copied as it is.
jsonb_escaped_quote : append_jsonb [] (codes "\\'") 1 ≡ codes "'\\''"
unfolding append_jsonb
jsonb_escaped_quote = refl

append_jsonb-doubled_example :
    append_jsonb [] (codes "\"it's\"") 1
    ≡ (([] ++ b'\'' ∷ []) ++ doubled (append_jsonb [] (codes "\"it's\"") 0)) ++ b'\'' ∷ []
unfolding escaped_quote
append_jsonb-doubled_example = append_jsonb-doubled [] (codes "\"it's\"") refl

-- 300 is too large for a variable of 8 bits, which then holds 44.
scan_value-cut_example :
    (scan_value (int w8) (pos 1) (some (append_int [] (pos 300))) ≡ (none, set_int w8 (pos 300)))
    × Fits w8 (set_int w8 (pos 300))
    × (Fits w8 (pos 300) → set_int w8 (pos 300) ≡ pos 300)
    × (set_int w8 (pos 300) ≡ pos 300 → Fits w8 (pos 300))
scan_value-cut_example = scan_value-cut w8 (pos 1) (pos 300) (omega arith)

cut_to_44 : set_int w8 (pos 300) ≡ pos 44
unfolding set_int
cut_to_44 = refl

scan-append_example :
    scan_value (ptr bytes) none (append_value (ptr bytes) [] (some (some (7 ∷ 255 ∷ []))) 0)
    ≡ (none, some (some (7 ∷ 255 ∷ [])))
scan-append_example =
    scan-append (ptr bytes) none (some (some (7 ∷ 255 ∷ []))) (tt, (omega arith, (omega arith, tt)))
