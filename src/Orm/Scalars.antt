-- ===== src/Orm/Scalars.antt =====
-- Values of the package types as parameters of a query: `types.Append` with quote 1.
use go_pg.Base.{
  ℕ, ◌≡◌, refl, sym, ap, ◌∙◌, true, false, none, some, [], ◌∷◌, ◌++◌, Bytes, append_assoc,
  append-nil,
}
use go_pg.Base.Int.{pos, negsuc}
use go_pg.Types.Append.{
  Value, null, bool, int, uint, text, blob, texts, ints, blobs, hstore, append, append_null,
  append_bool, append_int, append_string, append_bytes, escape, escape_byte, quote_mark,
}
use go_pg.Orm.Format.{of_value}

-- Values that are no array and no hstore.
abbrev pub Scalar : Value → Type 0
Scalar (texts xs) = ⊥
Scalar (ints xs) = ⊥
Scalar (blobs xs) = ⊥
Scalar (hstore m) = ⊥
Scalar _ = Unit

escape-onto : (q : ℕ) (b s : Bytes) → escape q b s ≡ b ++ escape q [] s
unfolding escape
escape-onto q b [] = sym (append-nil b)
escape-onto q b (c ∷ s) =
    escape-onto q (b ++ escape_byte q c) s
    ∙ append_assoc b (escape_byte q c) (escape q [] s)
    ∙ ap (λ t. b ++ t) (sym (escape-onto q (escape_byte q c) s))

append_string-onto : (q : ℕ) (b s : Bytes) → append_string b s q ≡ b ++ append_string [] s q
unfolding append_string
append_string-onto q b s =
    let m = quote_mark q in
    ap (λ t. t ++ m)
      (escape-onto q (b ++ m) s
        ∙ append_assoc b m (escape q [] s)
        ∙ ap (λ t. b ++ t) (sym (escape-onto q m s)))
    ∙ append_assoc b (escape q m s) m

-- A scalar parameter only appends to the query.
pub of_value-appends :
    (v : Value) (b : Bytes) → Scalar v → (of_value v).append_to b ≡ b ++ (of_value v).append_to []
unfolding append append_null append_bool append_int append_bytes append_string quote_mark
of_value-appends null b h = refl
of_value-appends (bool true) b h = refl
of_value-appends (bool false) b h = refl
of_value-appends (int (pos n)) b h = refl
of_value-appends (int (negsuc n)) b h = refl
of_value-appends (uint n) b h = refl
of_value-appends (text s) b h = append_string-onto 1 b s
of_value-appends (blob none) b h = refl
of_value-appends (blob (some s)) b h = simp append_assoc
of_value-appends (texts _) b h = elim h [ ]
of_value-appends (ints _) b h = elim h [ ]
of_value-appends (blobs _) b h = elim h [ ]
of_value-appends (hstore _) b h = elim h [ ]
