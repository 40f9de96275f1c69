-- ===== src/Lib.antt =====
-- go-pg, a PostgreSQL client: its connection pool, its wire protocol, and the text of its values.
--
-- A call of the client takes a connection from the pool (internal/pool/pool.go), builds messages in the
-- connection's write buffer (internal/pool/write_buffer.go) and reads the answer message by message
-- (messages.go). Parameters become SQL text in types; arrays and hstores in an answer are read by
-- internal/parser and the scanners of types.
--
-- - Base: shared names, Boolean tests on ℕ, lists of bytes, and integers over the native ℕ.
-- - Errors: error.go and internal/error.go. An error is kept as far as the code tells errors apart.
-- - Wire: Wire/Words has the big-endian words of encoding/binary, Wire/Buffer is
--   internal/pool/write_buffer.go, one function per method, Wire/Framing says what a message is.
-- - Net: internal/pool/conn.go. The peer is data: the bytes that it will still send and the error behind
--   them, and whether it accepts what is written. A reader is a function from a connection to an outcome:
--   a value, an error, a panic, or fuel that ran out. Net/Loop has the loop `for { … }`, Net/Laws what
--   shortens the input.
-- - Types: types/append.go, append_array.go, append_hstore.go (Types/Append), append_field.go
--   (Types/Field; Types/Quoted has the names of one part), append_jsonb.go (Types/Jsonb) and result.go (Types/Result). The loop of AppendJSONB
--   runs on as many rounds as the text has bytes, since each of them reads one. Types/Kinds has the
--   scanners of scan_value.go and scan.go and the appenders of append_value.go, one type of values for
--   each kind that reflection finds.
-- - Message: messages.go. Message/Kind has the type bytes, Message/Read what all readers share,
--   Message/Write the writers, Message/Query, Prepare, Rows, Copy and Startup the readers, each with the
--   `switch` of its loop as a function. The client of mellium.im/sasl, the md5 digest and the model that
--   takes the rows are parameters.
-- - Parser: internal/parser/parser.go; Parser/Array and Parser/Hstore are array_parser.go and
--   hstore_parser.go with the scanners of types/scan_array.go and types/scan_hstore.go.
-- - Pool: internal/pool/pool.go. Pool has the operations on the pool's state, Pool/Get the methods run by
--   one goroutine, Pool/Steps the same operations as steps that goroutines take in any order. A connection
--   is a number; the buffered channel is the count of its values.
-- - Database: db.go: the connection of a call, the query on it, and the retry loop of `Exec`;
--   Database/Calls is what Query, CopyFrom, CopyTo and cancelRequest do on one connection, and
--   Database/Queries these calls over the pool. Database/Tx and Database/TxCalls are tx.go, Database/Stmts
--   is stmt.go. Database/Places, Database/Retries, Database/Queries/Balance, Database/Stmts/Held and
--   Database/Endings follow the places in the pool's channel through them, Database/Back a connection that is
--   given back, Database/Begins the one that Begin takes. What `initConn` does is a
--   parameter.
-- - Listener: listener.go over the pool, the connection and the formatter. Listener/Places follows its place
--   in the pool's channel, Listener/Sent what it writes, Listener/Laws its channels and its end.
-- - Options: options.go; net/url is a parameter.
-- - Orm: the package orm. Orm/Format is format.go, Orm/Table the parts of table.go, field.go and util.go
--   that queries are written from, Orm/Names internal/underscore.go, Orm/Joins join.go, Orm/Query the
--   methods of query.go that put a query together, Orm/Clauses its clauses, Orm/Select select.go,
--   Orm/Statements insert.go, update.go and delete.go, Orm/Pager url_values.go. What reflection finds in a
--   struct is a function from the names of its columns. Orm/Template reads a query's text as marks and
--   literal text, Orm/Slots, Orm/Filled, Orm/Params and Orm/Scalars are about its parameters, Orm/Grows and Orm/Safe
--   about what stays written, Orm/Paging about pages. Orm/Routes is model_table_struct.go as far as it routes
--   the columns of rows and adds joins. Orm/Tags is tag.go, and Orm/Columns is how table.go and tables.go
--   build tables: a struct type is a number with what reflection says of it, and the tables that point to
--   each other stand in one registry; Orm/Columns/Create is create_table.go, Orm/Columns/Keyed, Keeps,
--   Plain and Registry are about the tables built. The plural of a name is a parameter.
--
-- Fuel. A loop over messages gets one round more than there are bytes to read: each round reads at least
-- one byte or returns. The loops over free connections get one round more than there are free
-- connections, since each round takes one off. The decoders of arrays and hstores get one round more
-- than there are bytes, and the formatter as many as there are bytes. `Exec` gets one round more than
-- `MaxRetries`; the rounds of `Query` and of statements are the three of the source. The parts of a
-- column's name get one round more than it has bytes, and the options of a tag as many as they have bytes.
-- newTable calls itself on the types of fields: each nested call takes a round, and a registry whose
-- rounds ran out is marked as halted.
--
-- Not modelled: of the package orm the models that rows are written to, running the queries of has-many
-- joins, Count and the estimate of a count, and hooks, since they call methods of user values by
-- reflection; floats, times and the encoding of JSON, which are the standard library's; timers, deadlines, TLS
-- and the log.
pub mod Base
pub mod Errors
pub mod Wire
pub mod Net
pub mod Types
pub mod Message
pub mod Parser
pub mod Pool
pub mod Database
pub mod Listener
pub mod Options
pub mod Orm
