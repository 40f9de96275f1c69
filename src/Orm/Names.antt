-- ===== src/Orm/Names.antt =====
-- internal/underscore.go: names of Go as names of SQL. A byte is a number below 256.
use go_pg.Base.{
  ℕ, ◌+◌, ◌-◌, ◌%◌, Bool, true, not, ◌&&◌, ◌||◌, [], ◌∷◌, ◌++◌, Bytes, leb, map, if◌then◌else◌,
}

abbrev pub is_upper : ℕ → Bool
is_upper c = leb b'A' c && leb c b'Z'

-- The source's `isLower` holds of every byte that is no upper case letter.
abbrev pub is_lower : ℕ → Bool
is_lower c = not (is_upper c)

abbrev to_upper : ℕ → ℕ
to_upper c = (c + 256 - 32) % 256

abbrev pub to_lower : ℕ → ℕ
to_lower c = (c + 32) % 256

-- The byte `c` behind the byte `p`, with the rest of the name after it.
abbrev pub cased : ℕ → ℕ → Bytes → Bytes
cased p c [] = if is_upper c then to_lower c ∷ [] else c ∷ []
cased p c (d ∷ s) =
    if is_upper c
    then (if is_lower p || is_lower d then b'_' ∷ to_lower c ∷ [] else to_lower c ∷ [])
    else c ∷ []

-- The loop of `Underscore` behind the byte `p`.
unfoldable pub underscore_after : ℕ → Bytes → Bytes
underscore_after p [] = []
underscore_after p (c ∷ s) = cased p c s ++ underscore_after c s

unfoldable pub underscore : Bytes → Bytes
unfolding underscore_after
underscore [] = []
underscore (c ∷ s) = (if is_upper c then to_lower c else c) ∷ underscore_after c s

abbrev pub is_small : ℕ → Bool
is_small c = leb b'a' c && leb c b'z'

unfoldable pub is_upper_string : Bytes → Bool
is_upper_string [] = true
is_upper_string (c ∷ s) = not (is_small c) && is_upper_string s

abbrev pub capital : ℕ → ℕ
capital c = if is_small c then c - 32 else c

-- `ToUpper` of a string.
unfoldable pub upper : Bytes → Bytes
unfolding is_upper_string
upper s = if is_upper_string s then s else map capital s

unfoldable pub to_exported : Bytes → Bytes
to_exported [] = []
to_exported (c ∷ s) = if is_lower c then to_upper c ∷ s else c ∷ s
