-- ===== src/Orm/Table.antt =====
-- orm/field.go, orm/table.go and orm/relation.go: the columns of a struct, its table, and the values of one struct.
use go_pg.Base.{
  ℕ, Bool, true, false, not, ◌&&◌, Option, none, some, List, [], ◌∷◌, ◌++◌, Bytes, codes, find,
  assign, if◌then◌else◌,
}
use go_pg.Types.Append.{or_empty, append_null}
use go_pg.Types.Field.{append_field}

-- The flags of a field are Booleans.
pub record Field : Type 0 where
  pub go_name : Bytes
  pub sql_name : Bytes
  pub col_name : Bytes
  pub sql_type : Bytes
  pub is_primary_key : Bool
  pub is_foreign_key : Bool
  pub is_not_null : Bool
  pub is_unique : Bool

-- What reflection finds in a struct at a field: `isEmpty`, and what the appender of its type does.
pub record Cell : Type 0 where
  pub is_empty : Bool
  pub append_to : Bytes → ℕ → Option Bytes

-- A struct, by the names of its columns.
abbrev pub Strct : Type 0
Strct = Bytes → Cell

unfoldable pub omit_empty : Field → Strct → Bool
omit_empty f s = not (f.is_not_null) && (s (f.sql_name)).is_empty

unfoldable pub append_value : Field → Bytes → Strct → ℕ → Option Bytes
unfolding append_null
append_value f b s quote =
    if not (f.is_not_null) && (s (f.sql_name)).is_empty
    then append_null b quote
    else (s (f.sql_name)).append_to b quote

-- `AppendValue` in a query, where bytes are appended to what it returns.
abbrev pub value_onto : Field → Strct → Bytes → Bytes
value_onto f s b = or_empty (append_value f b s 1)

-- A method without arguments, called on the address of the struct, with the appender of its result.
abbrev pub Method : Type 0
Method = Strct → Bytes → ℕ → Bytes

pub record Table : Type 0 where
  pub name : Bytes
  pub alias : Bytes
  pub model_name : Bytes
  pub fields : List Field
  pub pks : List Field
  pub fields_map : List (Bytes × Field)
  pub methods : List (Bytes × Method)

unfoldable pub check_pks : Table → Bool
check_pks t = elim (t.pks) [ [] ↦ false | f ∷ fs ↦ true ]

unfoldable pub add_field : Table → Field → Table
unfolding assign
add_field t f = record t {
  fields = t.fields ++ f ∷ [];
  fields_map = assign (t.fields_map) (f.sql_name) f;
}

unfoldable pub has_field : Table → Bytes → Bool
unfolding find
has_field t name = elim (find (t.fields_map) name) [ none ↦ false | some f ↦ true ]

unfoldable pub get_field : Table → Bytes → Option Field
unfolding find
get_field t name = find (t.fields_map) name

unfoldable pub append_param : Table → Bytes → Strct → Bytes → Option Bytes
unfolding find append_value
append_param t dst s name = elim (find (t.fields_map) name) [
  | some f ↦ some (value_onto f s dst)
  | none ↦ elim (find (t.methods) name) [ some m ↦ some (m s dst 1) | none ↦ none ]
]

-- The loops that write a list with a separator between two: `first` while nothing is written.
unfoldable pub append_sep {ℓ} :
    {A : Type ℓ} → Bool → Bytes → (Bytes → A → Bytes) → Bytes → List A → Bytes
append_sep first sep put b [] = b
append_sep first sep put b (x ∷ xs) =
    append_sep false sep put (put (if first then b else b ++ sep) x) xs

abbrev pub comma : Bytes
comma = codes ", "

-- A table in front of a column.
abbrev qualifier : Bytes → Bytes
qualifier [] = []
qualifier (c ∷ t) = (c ∷ t) ++ b'.' ∷ []

-- `columns`.
unfoldable pub columns : Bytes → Bytes → List Field → Bytes
unfolding append_sep append_field
columns table prefix fs =
    append_sep true comma (λ b f. append_field (b ++ qualifier table) (prefix ++ f.sql_name) true)
      [] fs

-- `appendColumnAndValue`.
unfoldable pub append_column_and_value : Bytes → Strct → Table → List Field → Bytes
unfolding append_sep append_value
append_column_and_value b s t fs =
    append_sep true (codes " AND ")
      (λ b f. value_onto f s (((b ++ t.alias) ++ b'.' ∷ []) ++ (f.col_name ++ codes " = "))) b fs
