-- ===== src/Message/Rows.antt =====
-- messages.go: the readers that hand rows to a model, `readSimpleQueryData` and `readExtQueryData`.
-- The interface `orm.Model` is a parameter: its state, and what its methods do to that state.
use go_pg.Base.{
  ℕ, zero, suc, Option, none, some, ◌⊎◌, inl, inr, List, Bytes, get_elem?, ◌==◌, if◌then◌else◌,
}
use go_pg.Base.Int.{ℤ, pos, negsuc}
use go_pg.Errors.{Error}
use go_pg.Net.{ok, M, pure, ◌>>=◌, ◌>>◌, read_n, or_panic}
use go_pg.Net.Loop.{Step, more, done}
use go_pg.Types.Result.{PgResult, new_result}
use go_pg.Message.Kind.{
  row_description_msg, data_row_msg, command_complete_msg, ready_for_query_msg, error_response_msg,
  bind_complete_msg,
}
use go_pg.Message.Read.{
  each_message, skip, read_int16, read_int32, read_error, notice_or_unexpected, first_error,
}
use go_pg.Message.Prepare.{read_row_description}

-- `orm.Model` with its `ColumnScanner`, as values: `NewModel` gives the scanner of one row, and
-- `AddModel` takes that scanner back. `make` is `newModel(mod)` and `discard` is `pg.Discard`.
pub record RowModel : Type 1 where
  pub State : Type 0
  pub Row : Type 0
  pub make : Error ⊎ State
  pub discard : State
  pub new_model : State → Row
  pub scan_column : Row → ℕ → Bytes → Option Bytes → Row × Option Error
  pub add_model : State → Row → State × Option Error

-- `setErr(err)` where `err` may be nil.
abbrev pub note_error : Option Error → Option Error → Option Error
note_error first none = first
note_error first (some e) = first_error first e

abbrev pub store_columns : List Bytes → M (Unit {0})
store_columns cols c = ok tt (record c { columns = cols })

abbrev pub stored_columns : M (List Bytes)
stored_columns c = ok c.columns c

-- The bytes of one value: none for a NULL. A length below -1 makes `ReadN` panic.
unfoldable pub read_value : ℤ → M (Option Bytes)
read_value (pos n) = do b ← read_n (pos n); pure (some b)
read_value (negsuc n) = if n == 0 then pure none else read_n (negsuc n) >> pure none

module _ (m : RowModel) where
  open m use {State, Row, make, discard, new_model, scan_column, add_model}

  -- The rows behind `colIdx`; the flag is `retErr`.
  unfoldable pub read_values : List Bytes → ℕ → ℕ → Row → Option Error → M (Row × Option Error)
  unfolding read_value
  read_values columns zero idx row e = pure (row, e)
  read_values columns (suc n) idx row e = do
    l ← read_int32
    b ← read_value l
    column ← or_panic (get_elem? columns idx)
    let scanned = scan_column row idx column b
    read_values columns n (suc idx) scanned.0 (note_error e scanned.1)

  abbrev row_width : ℤ → ℕ
  row_width (pos n) = n
  row_width (negsuc n) = 0

  unfoldable pub read_data_row : Row → List Bytes → M (Row × Option Error)
  unfolding read_values
  read_data_row row columns = do
    col_num ← read_int16
    read_values columns (row_width col_num) 0 row none

  -- The variables of both readers; `model` is nil until it is made.
  pub record Gathered : Type 0 where
    pub res : Option PgResult
    pub model : Option State
    pub ret_err : Option Error
    pub rows : ℕ

  abbrev pub made : Gathered → Error ⊎ State → Gathered
  made g (inl e) = record g { model = some discard; ret_err = note_error g.ret_err (some e) }
  made g (inr s) = record g { model = some s }

  -- `if model == nil { … }`.
  unfoldable pub ensure_model : Gathered → Gathered
  ensure_model g = elim g.model [ none ↦ made g make | some s ↦ g ]

  -- The rest of `case dataRowMsg` once the row is read.
  abbrev pub add_row : Gathered → State → Row × Option Error → Gathered
  add_row g s (row, some e) = record g {
    ret_err = note_error g.ret_err (some e);
    rows = suc g.rows;
  }
  add_row g s (row, none) = record g {
    model = some (add_model s row).0;
    ret_err = note_error g.ret_err (add_model s row).1;
    rows = suc g.rows;
  }

  -- `model.NewModel()` on a nil interface panics.
  unfoldable pub gather_row : Gathered → List Bytes → M (Step Gathered Gathered)
  unfolding read_data_row
  gather_row g columns = do
    s ← or_panic g.model
    r ← read_data_row (new_model s) columns
    pure (more (add_row g s r))

  unfoldable pub gather_complete : ℤ → Gathered → M (Step Gathered Gathered)
  gather_complete n g = do
    b ← read_n n
    r ← or_panic (new_result b g.rows)
    pure (more (record g { res = some r }))

  unfoldable pub gather_error : Gathered → M (Step Gathered Gathered)
  gather_error g = do
    e ← read_error
    pure (more (record g { ret_err = note_error g.ret_err (some e) }))

  unfoldable pub simple_query_data_switch : ℕ → ℤ → Gathered → M (Step Gathered Gathered)
  unfolding gather_row ensure_model gather_complete gather_error
  simple_query_data_switch c n g =
      if c == row_description_msg
      then (do cols ← read_row_description; u ← store_columns cols; pure (more (ensure_model g)))
      else if c == data_row_msg
      then (do columns ← stored_columns; gather_row g columns)
      else if c == command_complete_msg
      then gather_complete n g
      else if c == ready_for_query_msg
      then read_n n >> pure (done g)
      else if c == error_response_msg
      then gather_error g
      else notice_or_unexpected c n g

  abbrev pub nothing_gathered : Gathered
  nothing_gathered = record { res = none; model = none; ret_err = none; rows = 0 }

  unfoldable pub read_simple_query_data : M Gathered
  unfolding simple_query_data_switch
  read_simple_query_data = each_message simple_query_data_switch nothing_gathered

  unfoldable pub ext_query_data_switch : List Bytes → ℕ → ℤ → Gathered → M (Step Gathered Gathered)
  unfolding gather_row ensure_model gather_complete gather_error
  ext_query_data_switch columns c n g =
      if c == bind_complete_msg
      then skip n g
      else if c == data_row_msg
      then gather_row (ensure_model g) columns
      else if c == command_complete_msg
      then gather_complete n g
      else if c == ready_for_query_msg
      then read_n n >> pure (done g)
      else if c == error_response_msg
      then gather_error g
      else notice_or_unexpected c n g

  unfoldable pub read_ext_query_data : List Bytes → M Gathered
  unfolding ext_query_data_switch
  read_ext_query_data columns = each_message (ext_query_data_switch columns) nothing_gathered
