-- ===== src/Types/Onto.antt =====
-- `AppendField` behind what is already written.
use go_pg.Base.{
  ◌≡◌, sym, ap, ◌∙◌, Bool, true, false, not, ◌&&◌, ◌||◌, [], ◌∷◌, ◌++◌, Bytes, append_assoc,
  append-nil, ◌==◌, if◌then◌else◌,
}
use go_pg.Types.Field.{append_field, append_field_from, field_mark, doubled}

if-append :
    (c : Bool) (b x y x' y' : Bytes)
    → x ≡ b ++ x'
    → y ≡ b ++ y'
    → (if c then x else y) ≡ b ++ (if c then x' else y')
if-append true b x y x' y' h g = h
if-append false b x y x' y' h g = g

append_field_from-append :
    (q quoted : Bool) (b a s : Bytes)
    → append_field_from q quoted (b ++ a) s ≡ b ++ append_field_from q quoted a s
unfolding append_field_from
append_field_from-append q quoted b a [] = append_assoc b a (field_mark (q && quoted))
append_field_from-append q quoted b a (c ∷ []) =
    if-append (c == b'*' && not quoted) b _ _ _ _ (simp append_assoc)
      (if-append (c == b'.') b _ _ _ _ (simp append_assoc) (simp append_assoc))
append_field_from-append q quoted b a (c ∷ d ∷ s) =
    if-append (c == b'*' && not quoted) b _ _ _ _
      (ap (λ x. append_field_from q quoted x (d ∷ s)) (simp append_assoc)
        ∙ append_field_from-append q quoted b (a ++ b'*' ∷ []) (d ∷ s))
      (if-append (c == b'.') b _ _ _ _
        (if-append (d == b'*') b _ _ _ _
          (ap (λ x. append_field_from q (quoted && not q) x s) (simp append_assoc)
            ∙ append_field_from-append q (quoted && not q) b
                (((a ++ field_mark (q && quoted)) ++ b'.' ∷ []) ++ b'*' ∷ []) s)
          (ap (λ x. append_field_from q (quoted || q) x (d ∷ s)) (simp append_assoc)
            ∙ append_field_from-append q (quoted || q) b
                (((a ++ field_mark (q && quoted)) ++ b'.' ∷ []) ++ field_mark q) (d ∷ s)))
        (ap (λ x. append_field_from q (quoted || q) x (d ∷ s)) (simp append_assoc)
          ∙ append_field_from-append q (quoted || q) b
              ((a ++ field_mark (not quoted && q)) ++ doubled c) (d ∷ s)))

pub append_field-append : (b s : Bytes) (q : Bool) → append_field b s q ≡ b ++ append_field [] s q
unfolding append_field
append_field-append b s q =
    ap (λ x. append_field_from q false x s) (sym (append-nil b))
    ∙ append_field_from-append q false b [] s
