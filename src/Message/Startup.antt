-- ===== src/Message/Startup.antt =====
-- messages.go: the start of a session, `startup`, `authenticate` and the SASL exchange. The client of
-- mellium.im/sasl and the digest of crypto/md5 are parameters.
use go_pg.Base.{
  ℕ, Bool, false, Option, none, some, ◌⊎◌, inl, inr, [], ◌++◌, Bytes, codes, length, equal, ◌==◌,
  if◌then◌else◌,
}
use go_pg.Base.Int.{ℤ, pos, negsuc, ◌-ℤ◌}
use go_pg.Errors.{
  Error, plain_error, unexpected_message, unexpected_auth_code, unknown_auth_method, sasl_failed,
  internal_error, ssl_not_supported,
}
use go_pg.Net.{ok, panic, M, pure, fail, ◌>>=◌, ◌>>◌, read_n, read_byte, flush_writer}
use go_pg.Net.Loop.{Step, more, done, for_ever}
use go_pg.Wire.Buffer.{WriteBuffer, start_message, finish_message, write, write_int32, write_string}
use go_pg.Message.Kind.{
  backend_key_data_msg, parameter_status_msg, authentication_ok_msg, ready_for_query_msg,
  error_response_msg, password_message_msg,
}
use go_pg.Message.Read.{
  each_message, read_int32, read_string, read_message_type, return_error, log_parameter_status,
}
use go_pg.Message.Write.{write_startup_msg, write_password_msg, write_ssl_msg}

-- What the package uses of mellium.im/sasl: a mechanism's name, a client for a mechanism (nil if the
-- server offered none that is known) and the credentials, one step of it, and its final state.
pub record Sasl : Type 1 where
  pub Client : Type 0
  pub scram_sha256 : Bytes
  pub scram_sha256_plus : Bytes
  pub new_client : Option Bytes → Bytes → Bytes → Client
  pub step : Client → Option Bytes → Error ⊎ (Bytes × Client)
  pub is_valid : Client → Bool

-- A message built in `cn.Wr`.
unfoldable pub write_with : (WriteBuffer → Option WriteBuffer) → M (Unit {0})
write_with f c = elim (f c.wr) [ none ↦ panic | some w ↦ ok tt (record c { wr = w }) ]

unfoldable pub set_backend_key : ℤ → ℤ → M (Unit {0})
set_backend_key process secret c = ok tt (record c { process_id = process; secret_key = secret })

abbrev pub or_fail : {A : Type 0} → Error ⊎ A → M A
or_fail (inl e) = fail e
or_fail (inr a) = pure a

unfoldable pub is_zero : ℤ → Bool
is_zero (pos n) = n == 0
is_zero (negsuc n) = false

abbrev pub is_code : ℕ → ℤ → Bool
is_code k (pos n) = n == k
is_code k (negsuc n) = false

-- `enableSSL` up to the TLS handshake, which crypto/tls makes.
unfoldable pub enable_ssl : M (Unit {0})
enable_ssl = do
  written ← write_with write_ssl_msg
  flushed ← flush_writer
  c ← read_byte
  if c == b'S' then pure tt else fail (internal_error ssl_not_supported)

-- The answer to a password, and `readAuthOK`: both read one message, and want the code 0.
unfoldable pub read_auth_ok : M (Unit {0})
unfolding is_zero
read_auth_ok = do
  t ← read_message_type
  if t.0 == authentication_ok_msg
      then (do
        num ← read_int32
        if is_zero num then pure tt else fail (plain_error (unexpected_auth_code t.0)))
      else if t.0 == error_response_msg
      then return_error
      else fail (plain_error (unexpected_message t.0))

unfoldable pub send_password : Bytes → M (Unit {0})
unfolding read_auth_ok
send_password password = do
  written ← write_with (λ w. write_password_msg w password)
  flushed ← flush_writer
  read_auth_ok

module _ (sasl : Sasl) where
  open sasl use {Client, scram_sha256, scram_sha256_plus, new_client, step, is_valid}

  -- One round of the loop over the mechanisms that the server offers.
  unfoldable pub read_mechanism : Option Bytes → M (Step (Option Bytes) (Option Bytes))
  read_mechanism mech = do
    s ← read_string
    if equal s []
        then pure (done mech)
        else if equal s scram_sha256
        then pure (more (some scram_sha256))
        else if equal s scram_sha256_plus
        then pure (more mech)
        else fail (plain_error sasl_failed)

  abbrev mech_name : Option Bytes → Bytes
  mech_name none = []
  mech_name (some n) = n

  unfoldable pub read_auth_sasl_final : Client → M (Unit {0})
  unfolding read_auth_ok
  read_auth_sasl_final client = do
    t ← read_message_type
    if t.0 == authentication_ok_msg
        then (do
          c12 ← read_int32
          if is_code 12 c12
              then (do
                b ← read_n (t.1 -ℤ pos 4)
                r ← or_fail (step client (some b))
                if is_valid r.1 then read_auth_ok else fail (plain_error sasl_failed))
              else fail (plain_error sasl_failed))
        else if t.0 == error_response_msg
        then return_error
        else fail (plain_error sasl_failed)

  -- `case authenticationSASLContinueMsg`.
  unfoldable pub sasl_continue : Client → ℤ → M (Unit {0})
  unfolding read_auth_sasl_final
  sasl_continue client n = do
    c11 ← read_int32
    if is_code 11 c11
        then (do
          b ← read_n (n -ℤ pos 4)
          r ← or_fail (step client (some b))
          written ←
              write_with (λ w. finish_message (write (start_message w password_message_msg) r.0))
          flushed ← flush_writer
          read_auth_sasl_final r.1)
        else fail (plain_error sasl_failed)

  unfoldable pub sasl_exchange : Bytes → Bytes → M (Unit {0})
  unfolding sasl_continue read_mechanism
  sasl_exchange user password = do
    mech ← for_ever read_mechanism none
    r ← or_fail (step (new_client mech user password) none)
    written ← write_with λ w.
        let w1 = write_string (start_message w password_message_msg) (mech_name mech) in
        finish_message (write (write_int32 w1 (pos (length r.0))) r.0)
    flushed ← flush_writer
    t ← read_message_type
    if t.0 == authentication_ok_msg
        then sasl_continue r.1 t.1
        else if t.0 == error_response_msg
        then return_error
        else fail (plain_error sasl_failed)

  -- `md5s` is a parameter: the digest of a text in hexadecimal.
  unfoldable pub authenticate : (Bytes → Bytes) → Bytes → Bytes → M (Unit {0})
  unfolding send_password sasl_exchange
  authenticate md5s user password = do
    num ← read_int32
    if is_code 0 num
        then pure tt
        else if is_code 3 num
        then send_password password
        else if is_code 5 num
        then (do
          salt ← read_n (pos 4)
          send_password (codes "md5" ++ md5s (md5s (password ++ user) ++ salt)))
        else if is_code 10 num
        then sasl_exchange user password
        else fail (plain_error (unknown_auth_method num))

  unfoldable pub startup_switch :
      (Bytes → Bytes) → Bytes → Bytes → ℕ → ℤ → Unit {0} → M (Step (Unit {0}) (Unit {0}))
  unfolding authenticate
  startup_switch md5s user password c n u =
      if c == backend_key_data_msg
      then (do
        process ← read_int32
        secret ← read_int32
        set ← set_backend_key process secret
        pure (more u))
      else if c == parameter_status_msg
      then log_parameter_status n >> pure (more u)
      else if c == authentication_ok_msg
      then authenticate md5s user password >> pure (more u)
      else if c == ready_for_query_msg
      then read_n n >> pure (done u)
      else if c == error_response_msg
      then return_error
      else fail (plain_error (unexpected_message c))

  unfoldable pub startup : (Bytes → Bytes) → Bytes → Bytes → Bytes → M (Unit {0})
  unfolding startup_switch
  startup md5s user password database = do
    written ← write_with (λ w. write_startup_msg w user database)
    flushed ← flush_writer
    each_message (startup_switch md5s user password) tt
