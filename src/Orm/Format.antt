-- ===== src/Orm/Format.antt =====
-- orm/format.go: the `?` of a query's text replaced by its parameters. A map is an association list,
-- and a slice that may be nil an `Option`.
use go_pg.Base.{
  ℕ, zero, suc, Bool, true, false, not, ◌&&◌, ◌||◌, Option, none, some, List, [], ◌∷◌, ◌++◌, Bytes,
  length, get_elem?, assign, find, ◌==◌, if◌then◌else◌,
}
use go_pg.Base.Int.{pos, negsuc}
use go_pg.Types.Append.{Value, append, or_empty, strip_last}
use go_pg.Types.Result.{atoi}
use go_pg.Parser.{read_sep, read_identifier}

-- `AppendParam` of a table over one struct: the new bytes, or `none` for a name it does not have.
abbrev pub Fields : Type 0
Fields = Bytes → Bytes → Option Bytes

-- What the formatter asks of a parameter: `AppendFormat` or `types.Append` with quote 1; the fields
-- when it is a struct or points to one; and its `AppendParam` when it is a `tableModel`.
pub record Param : Type 0 where
  pub append_to : Bytes → Bytes
  pub fields : Option Fields
  pub model : Option Fields

abbrev pub of_value : Value → Param
of_value v = record { append_to = λ b. or_empty (append b v 1); fields = none; model = none }

pub record Formatter : Type 0 where
  pub named_params : Option (List (Bytes × Param))

abbrev pub entries : Option (List (Bytes × Param)) → List (Bytes × Param)
entries none = []
entries (some m) = m

unfoldable pub set_param : Formatter → Bytes → Param → Formatter
unfolding assign
set_param f k v = record { named_params = some (assign (entries (f.named_params)) k v) }

-- The loop of `Copy`: an empty map is copied as nil.
unfoldable pub set_params : Formatter → List (Bytes × Param) → Formatter
unfolding set_param
set_params f [] = f
set_params f ((k, v) ∷ m) = set_params (set_param f k v) m

unfoldable pub copy : Formatter → Formatter
unfolding set_params
copy f = set_params (record { named_params = none }) (entries (f.named_params))

unfoldable pub with_param : Formatter → Bytes → Param → Formatter
unfolding copy set_param
with_param f k v = set_param (copy f) k v

-- The variables of the loop of `append`.
pub record Loop : Type 0 where
  pub dst : Bytes
  pub params : List Param
  pub params_index : ℕ
  pub named_params : Option Fields
  pub named_params_init : Bool

abbrev pub onto : Loop → Bytes → Loop
onto l b = record l { dst = l.dst ++ b }

abbrev pub put_value : Loop → Param → Loop
put_value l p = record l { dst = p.append_to (l.dst) }

unfoldable pub last_param : List Param → Option Param
last_param [] = none
last_param (p ∷ []) = some p
last_param (p ∷ q ∷ ps) = last_param (q ∷ ps)

unfoldable pub but_last_param : List Param → List Param
but_last_param [] = []
but_last_param (p ∷ []) = []
but_last_param (p ∷ q ∷ ps) = p ∷ but_last_param (q ∷ ps)

abbrev pub fields_of : Option Param → Option Fields
fields_of none = none
fields_of (some p) = p.fields

abbrev pub model_of : Option Param → Option Fields
model_of none = none
model_of (some p) = p.model

-- `newTableParams` of the last parameter, once; a struct is taken off the parameters.
unfoldable pub init_named : Loop → Loop
unfolding last_param but_last_param
init_named l = elim (l.named_params_init) [
  | true ↦ l
  | false ↦ elim (l.params) [
    | [] ↦ l
    | p ∷ ps ↦ elim (fields_of (last_param (p ∷ ps))) [
      | none ↦ record l { named_params_init = true }
      | some fs ↦ record l {
        params = but_last_param (p ∷ ps);
        named_params = some fs;
        named_params_init = true;
      }
    ]
  ]
]

abbrev pub restored : Loop → Bytes → Loop
restored l id = onto l (b'?' ∷ id)

-- `AppendParam` of an object that may be nil, and what is done when it has no such name.
abbrev pub try_fields : Option Fields → Loop → Bytes → Loop → Loop
try_fields none l id otherwise = otherwise
try_fields (some fs) l id otherwise = elim (fs (l.dst) id) [
  | none ↦ otherwise
  | some dst ↦ record l { dst = dst }
]

abbrev pub lookup : Formatter → Bytes → Option Param
lookup f id = elim (f.named_params) [ none ↦ none | some m ↦ find m id ]

-- The `n`th parameter, or the mark as it was.
abbrev pub put_nth : Loop → Bytes → Option Param → Loop
put_nth l id none = restored l id
put_nth l id (some p) = put_value l p

unfoldable pub put_number : Loop → Bytes → Loop
unfolding atoi
put_number l id = elim (atoi id) [
  | none ↦ restored l id
  | some (pos n) ↦ put_nth l id (get_elem? (l.params) n)
  | some (negsuc n) ↦ restored l id
]

unfoldable pub put_name : Formatter → Option Fields → Loop → Bytes → Loop
unfolding find init_named
put_name f model l id = elim (lookup f id) [
  | some p ↦ put_value l p
  | none ↦
      let l' = init_named l in
      try_fields (l'.named_params) l' id (try_fields model l' id (restored l' id))
]

unfoldable pub put_next : Loop → Loop
put_next l = elim (get_elem? (l.params) (l.params_index)) [
  | none ↦ onto l (b'?' ∷ [])
  | some p ↦ record (put_value l p) { params_index = suc (l.params_index) }
]

-- What a `?` with the identifier behind it does.
unfoldable pub put_mark : Formatter → Option Fields → Loop → Bytes → Bool → Loop
unfolding put_number put_name put_next
put_mark f model l [] numeric = put_next l
put_mark f model l (c ∷ id) true = put_number l (c ∷ id)
put_mark f model l (c ∷ id) false = put_name f model l (c ∷ id)

unfoldable pub ends_in : ℕ → Bytes → Bool
ends_in c [] = false
ends_in c (x ∷ []) = x == c
ends_in c (x ∷ y ∷ b) = ends_in c (y ∷ b)

-- One round of the loop: the variables after it, and the text that is left.
unfoldable pub format_round : Formatter → Option Fields → Loop → Bytes → Loop × Bytes
unfolding ends_in strip_last put_mark read_sep read_identifier
format_round f model l src =
    let k = read_sep b'?' src in
    let r = read_identifier (k.rest) in
    if not (k.found)
    then (onto l (k.before), k.rest)
    else if ends_in b'\\' (k.before)
    then (onto (onto l (strip_last (k.before))) (b'?' ∷ []), k.rest)
    else (put_mark f model (onto l (k.before)) (r.0) (r.1), r.2)

-- `for p.Valid()`; `none` when the fuel is used up.
unfoldable pub format_rounds : ℕ → Formatter → Option Fields → Loop → Bytes → Option Loop
unfolding format_round
format_rounds fuel f model l [] = some l
format_rounds zero f model l (c ∷ src) = none
format_rounds (suc fuel) f model l (c ∷ src) =
    let r = format_round f model l (c ∷ src) in format_rounds fuel f model (r.0) (r.1)

abbrev pub start : Bytes → List Param → Loop
start dst params = record {
  dst = dst;
  params = params;
  params_index = 0;
  named_params = none;
  named_params_init = false;
}

-- The last parameter is the model when it is a `tableModel`.
abbrev pub without_model : List Param → List Param
without_model params = elim (model_of (last_param params)) [
  | none ↦ params
  | some m ↦ but_last_param params
]

unfoldable pub format_loop : Formatter → Bytes → Bytes → List Param → Option Loop
unfolding format_rounds last_param but_last_param
format_loop f dst src params =
    format_rounds (length src) f (model_of (last_param params)) (start dst (without_model params))
      src

abbrev pub is_nil {ℓ} : {A : Type ℓ} → Option A → Bool
is_nil none = true
is_nil (some a) = false

abbrev pub slice : Option (List Param) → List Param
slice none = []
slice (some ps) = ps

abbrev pub finish : Option Loop → Option Bytes
finish none = none
finish (some l) = some (l.dst)

-- `Append`, `AppendBytes` and `FormatQuery` of the formatter.
unfoldable pub format : Formatter → Bytes → Bytes → Option (List Param) → Option Bytes
unfolding format_loop read_sep
format f dst src params =
    let plain = not ((read_sep b'?' src).found) in
    if (is_nil params && is_nil (f.named_params)) || plain
    then some (dst ++ src)
    else finish (format_loop f dst src (slice params))
