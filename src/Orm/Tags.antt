-- ===== src/Orm/Tags.antt =====
-- orm/tag.go: the tag of a struct's field, a name and options behind commas.
pub mod Split
use go_pg.Base.{
  ℕ, zero, suc, Bool, true, false, Option, none, some, List, [], ◌∷◌, Bytes, length, equal, take,
  drop, leb, ◌&&◌, ◌==◌, if◌then◌else◌,
}

-- The bytes before the first comma, and those behind it if there is one.
unfoldable pub cut_comma : Bytes → Bytes × Option Bytes
cut_comma [] = ([], none)
cut_comma (c ∷ s) =
    let rest = cut_comma s in if c == b',' then ([], some s) else (c ∷ rest.0, rest.1)

-- `strings.HasPrefix(s, name)`, with what follows the name.
unfoldable pub after_prefix : Bytes → Bytes → Option Bytes
after_prefix [] s = some s
after_prefix (p ∷ ps) [] = none
after_prefix (p ∷ ps) (c ∷ s) = let rest = after_prefix ps s in if p == c then rest else none

abbrev pub rest_of : Option Bytes → Bytes
rest_of none = []
rest_of (some s) = s

-- The loop of `Get`: each round drops an option, so as many rounds as there are bytes are enough.
unfoldable pub get_rounds : ℕ → Bytes → Bytes → Option Bytes
get_rounds fuel name [] = none
get_rounds zero name (c ∷ s) = none
get_rounds (suc fuel) name (c ∷ s) =
    let next = get_rounds fuel name (rest_of ((cut_comma (c ∷ s)).1)) in
    elim (after_prefix name ((cut_comma (c ∷ s)).0)) [ some value ↦ some value | none ↦ next ]

-- `tagOptions.Get`: what stands behind the name in the first option that begins with it.
unfoldable pub get : Bytes → Bytes → Option Bytes
unfolding get_rounds cut_comma after_prefix
get options name = get_rounds (length options) name options

-- `parseTag`: the name, and the options.
unfoldable pub parse_tag : Bytes → Bytes × Bytes
unfolding cut_comma
parse_tag tag = ((cut_comma tag).0, rest_of ((cut_comma tag).1))

abbrev pub has : Bytes → Bytes → Bool
has options name = elim (get options name) [ none ↦ false | some value ↦ true ]
