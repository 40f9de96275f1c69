-- ===== src/Errors.antt =====
-- error.go and internal/error.go: the errors that decide what happens to a connection, and the
-- tests on them. An error is kept as far as the code tells errors apart; its message is not.
use go_pg.Base.{
  ℕ, Bool, true, false, not, ◌&&◌, ◌||◌, List, [], ◌∷◌, Option, none, some, Bytes, codes, equal,
  ◌==◌, if◌then◌else◌,
}
use go_pg.Base.Int.{ℤ, pos, negsuc}

-- `internal.Errorf` in package pg and its callers.
pub data InternalError : Type 0 where
  no_rows multi_rows ssl_not_supported tx_done stmt_closed listener_closed : InternalError
  cannot_scan : InternalError

-- `errors.New` and `fmt.Errorf`.
pub data PlainError : Type 0 where
  pool_closed pool_timeout conn_stale unread_data : PlainError
  unexpected_message unexpected_auth_code : ℕ → PlainError
  unknown_auth_method : ℤ → PlainError
  cannot_parse bad_query sasl_failed : PlainError

-- The fields of an error response, newest first: a later field hides an earlier one.
abbrev pub PgFields : Type 0
PgFields = List (ℕ × Bytes)

pub data Error : Type 0 where
  eof unexpected_eof : Error
  -- a net.Error, with its `Timeout()`
  net_error : Bool → Error
  pg_error : PgFields → Error
  internal_error : InternalError → Error
  plain_error : PlainError → Error

-- `err.m[k]`: the empty text where the field is missing.
unfoldable pub field : PgFields → ℕ → Bytes
field [] k = []
field ((j, v) ∷ m) k = if j == k then v else field m k

abbrev integrity_codes : List Bytes
integrity_codes =
    codes "23000"
    ∷ codes "23001"
    ∷ codes "23502"
    ∷ codes "23503"
    ∷ codes "23505"
    ∷ codes "23514"
    ∷ codes "23P01"
    ∷ []

unfoldable pub one_of : List Bytes → Bytes → Bool
one_of [] s = false
one_of (x ∷ xs) s = equal s x || one_of xs s

unfoldable pub integrity_violation : PgFields → Bool
unfolding one_of
integrity_violation m = one_of integrity_codes (field m b'C')

-- `AssertOneRow`; no error is `none`.
unfoldable pub assert_one_row : ℤ → Option Error
assert_one_row (pos n) =
    if n == 0
    then some (internal_error no_rows)
    else if n == 1
    then none
    else some (internal_error multi_rows)
assert_one_row (negsuc n) = none

-- `isBadConn` on a non-nil error.
unfoldable pub is_bad : Error → Bool → Bool
is_bad (internal_error e) allow_timeout = false
is_bad (pg_error m) allow_timeout = equal (field m b'S') (codes "FATAL")
is_bad (net_error timeout) allow_timeout = not (allow_timeout && timeout)
is_bad e allow_timeout = true

unfoldable pub is_bad_conn : Option Error → Bool → Bool
unfolding is_bad
is_bad_conn none allow_timeout = false
is_bad_conn (some e) allow_timeout = is_bad e allow_timeout

unfoldable pub is_network_error : Error → Bool
is_network_error eof = true
is_network_error (net_error t) = true
is_network_error e = false
