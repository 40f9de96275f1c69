-- ===== src/Types/Jsonb/Quoted.antt =====
-- types/append_jsonb.go: the JSON text inside the single quotes of a query.
use go_pg.Base.{
  ℕ, zero, suc, ◌≡◌, refl, sym, ap, ◌∙◌, Bool, true, false, ◌||◌, append_assoc, append-nil, [], ◌∷◌,
  ◌++◌, Bytes, codes, length, take, drop, equal, ◌==◌, if◌then◌else◌, arith,
}
use go_pg.Parser.{skip_bytes}
use go_pg.Types.Jsonb.{jsonb_byte, jsonb_backslash, jsonb_loop, append_jsonb}

-- Every single quote twice, the way a literal of SQL spells it.
unfoldable pub doubled : Bytes → Bytes
doubled [] = []
doubled (c ∷ s) = if c == b'\'' then b'\'' ∷ b'\'' ∷ doubled s else c ∷ doubled s

-- Whether a single quote stands behind a backslash that is not itself escaped; in a JSON text none does.
unfoldable pub escaped_quote : Bytes → Bool
escaped_quote [] = false
escaped_quote (c ∷ []) = false
escaped_quote (c ∷ d ∷ p) =
    let pair = escaped_quote p in
    let single = escaped_quote (d ∷ p) in if c == b'\\' then d == b'\'' || pair else single

doubled-append : (s t : Bytes) → doubled (s ++ t) ≡ doubled s ++ doubled t
unfolding doubled
doubled-append [] t = refl
doubled-append (c ∷ s) t = ground (arith, doubled-append s t)

jsonb_byte-doubled : (c : ℕ) → jsonb_byte 1 c ≡ doubled (jsonb_byte 0 c)
unfolding jsonb_byte doubled
jsonb_byte-doubled c = ground arith

escaped_quote-tail :
    (c : ℕ) (p : Bytes)
    → (c == b'\\') ≡ false
    → escaped_quote (c ∷ p) ≡ false
    → escaped_quote p ≡ false
unfolding escaped_quote
escaped_quote-tail c [] h e = refl
escaped_quote-tail c (d ∷ p) h e = ground arith

NoBackslash : Bytes → Type 0
NoBackslash [] = Unit
NoBackslash (c ∷ s) = ((c == b'\\') ≡ false) × NoBackslash s

drop-escaped_quote :
    (s p : Bytes)
    → NoBackslash s
    → equal (take (length s) p) s ≡ true
    → escaped_quote p ≡ false
    → escaped_quote (drop (length s) p) ≡ false
unfolding equal NoBackslash
drop-escaped_quote [] p n h e = e
drop-escaped_quote (x ∷ s) [] n h e = absurd cc
drop-escaped_quote (x ∷ s) (c ∷ p) n h e =
    drop-escaped_quote s p (n.1) (ground arith) (escaped_quote-tail c p (ground (arith, n.0)) e)

jsonb_backslash-doubled :
    (p : Bytes)
    → escaped_quote (b'\\' ∷ p) ≡ false
    → doubled ((jsonb_backslash p).0) ≡ (jsonb_backslash p).0
unfolding jsonb_backslash escaped_quote skip_bytes doubled
jsonb_backslash-doubled [] e = refl
jsonb_backslash-doubled (c ∷ p) e = ground arith

jsonb_backslash-kept :
    (p : Bytes) → escaped_quote (b'\\' ∷ p) ≡ false → escaped_quote ((jsonb_backslash p).1) ≡ false
unfolding jsonb_backslash escaped_quote skip_bytes equal NoBackslash
jsonb_backslash-kept [] e = refl
jsonb_backslash-kept (c ∷ p) e =
    ground (arith, drop-escaped_quote (codes "0000") p (refl, (refl, (refl, (refl, tt)))))

turn-doubled : (b a x y : Bytes) → x ≡ doubled y → (b ++ doubled a) ++ x ≡ b ++ doubled (a ++ y)
turn-doubled b a x y h = rw (doubled-append a y, h) (append_assoc b (doubled a) (doubled y))

-- Both runs of a turn take the same branch.
branch :
    (t : Bool) {A B : Type 0} (h : B → A) (x x' : A) (y y' : B)
    → (t ≡ true → x ≡ h y)
    → (t ≡ false → x' ≡ h y')
    → (if t then x else x') ≡ h (if t then y else y')
branch true h x x' y y' f g = f refl
branch false h x x' y y' f g = g refl

jsonb_loop-doubled :
    (f : ℕ) (b a p : Bytes)
    → escaped_quote p ≡ false
    → jsonb_loop f 1 (b ++ doubled a) p ≡ b ++ doubled (jsonb_loop f 0 a p)
unfolding jsonb_loop
jsonb_loop-doubled zero b a p e = refl
jsonb_loop-doubled (suc f) b a [] e = refl
jsonb_loop-doubled (suc f) b a (c ∷ p) e =
    branch (c == b'\\') (λ s. b ++ doubled s) _ _ _ _
      (λ q.
        let kept = jsonb_backslash-kept p (ground (arith, q, e)) in
        rw
          (turn-doubled b a ((jsonb_backslash p).0) ((jsonb_backslash p).0)
            (sym (jsonb_backslash-doubled p (ground (arith, q, e)))))
          (jsonb_loop-doubled f b (a ++ (jsonb_backslash p).0) ((jsonb_backslash p).1) kept))
      (λ q.
        rw (turn-doubled b a (jsonb_byte 1 c) (jsonb_byte 0 c) (jsonb_byte-doubled c))
          (jsonb_loop-doubled f b (a ++ jsonb_byte 0 c) p (escaped_quote-tail c p q e)))

-- When no single quote stands behind an open backslash, AppendJSONB with quote 1 appends between
-- single quotes what it gives without quoting, with every single quote twice.
pub append_jsonb-doubled :
    (b s : Bytes)
    → escaped_quote s ≡ false
    → append_jsonb b s 1 ≡ ((b ++ b'\'' ∷ []) ++ doubled (append_jsonb [] s 0)) ++ b'\'' ∷ []
unfolding append_jsonb doubled
append_jsonb-doubled b s e = rw (append-nil (jsonb_loop (length s) 0 [] s), body) refl
  where
    body :
        jsonb_loop (length s) 1 (b ++ b'\'' ∷ []) s
        ≡ (b ++ b'\'' ∷ []) ++ doubled (jsonb_loop (length s) 0 [] s)
    body =
        ap (λ x. jsonb_loop (length s) 1 x s) (sym (append-nil (b ++ b'\'' ∷ [])))
        ∙ jsonb_loop-doubled (length s) (b ++ b'\'' ∷ []) [] s e
