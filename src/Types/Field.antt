-- ===== src/Types/Field.antt =====
-- types/append_field.go: a name with its parts between double quotes.
use go_pg.Base.{ℕ, Bool, true, false, not, ◌&&◌, ◌||◌, [], ◌∷◌, ◌++◌, Bytes, ◌==◌, if◌then◌else◌}

-- A double quote in a query; nothing elsewhere.
unfoldable pub field_mark : Bool → Bytes
field_mark true = b'"' ∷ []
field_mark false = []

abbrev pub doubled : ℕ → Bytes
doubled c = if c == b'"' then b'"' ∷ b'"' ∷ [] else c ∷ []

-- The loop of `appendField`, and the closing mark behind it: `in_query` is `quote == 1`, and `quoted`
-- whether a mark is open. After a `.` the mark is opened at once, but not for a `*`.
unfoldable pub append_field_from : Bool → Bool → Bytes → Bytes → Bytes
unfolding field_mark
append_field_from in_query quoted b [] = b ++ field_mark (in_query && quoted)
append_field_from in_query quoted b (c ∷ []) =
    let star = append_field_from in_query quoted (b ++ b'*' ∷ []) [] in
    let dot =
      append_field_from in_query (quoted || in_query)
        (((b ++ field_mark (in_query && quoted)) ++ b'.' ∷ []) ++ field_mark in_query) [] in
    let plain =
      append_field_from in_query (quoted || in_query)
        ((b ++ field_mark (not quoted && in_query)) ++ doubled c) [] in
    if c == b'*' && not quoted then star else if c == b'.' then dot else plain
append_field_from in_query quoted b (c ∷ d ∷ s) =
    let star = append_field_from in_query quoted (b ++ b'*' ∷ []) (d ∷ s) in
    let closed = (b ++ field_mark (in_query && quoted)) ++ b'.' ∷ [] in
    let dot_star = append_field_from in_query (quoted && not in_query) (closed ++ b'*' ∷ []) s in
    let dot =
      append_field_from in_query (quoted || in_query) (closed ++ field_mark in_query) (d ∷ s) in
    let plain =
      append_field_from in_query (quoted || in_query)
        ((b ++ field_mark (not quoted && in_query)) ++ doubled c) (d ∷ s) in
    if c == b'*' && not quoted
    then star
    else if c == b'.'
    then (if d == b'*' then dot_star else dot)
    else plain

unfoldable pub append_field : Bytes → Bytes → Bool → Bytes
unfolding append_field_from
append_field b field in_query = append_field_from in_query false b field
