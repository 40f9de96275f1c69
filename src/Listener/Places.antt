-- ===== src/Listener/Places.antt =====
-- The place of a listener in the pool's channel.
use go_pg.Base.{
  ℕ, suc, ◌≡◌, ◌⊎◌, inl, inr, refl, sym, subst, Bool, true, false, Option, none, some, List, [],
  ◌∷◌, Bytes, if◌then◌else◌,
}
use go_pg.Errors.{Error, internal_error, listener_closed, is_bad_conn}
use go_pg.Net.{Conn, Outcome, ok, err, panic, no_fuel, M}
use go_pg.Message.Copy.{Notification, read_notification}
use go_pg.Pool.{ConnPool}
use go_pg.Pool.Get.{Env, remove_conn}
use go_pg.Database.{Db, store, conn}
use go_pg.Database.Places.{Kept, remove_conn-Kept}
use go_pg.Database.Retries.{Good, Returns, Sized, Joined, store-Sized, conn-Joined}
use go_pg.Orm.Format.{Formatter}
use go_pg.Listener.{
  Listener, Ret, listen, stored, removed, close_held, close_conn, free_own_conn, with_error,
  resubscribed, resubscribe, opened, kept_or_opened, own_conn, heard, listen_on, listen_to,
  notified, receive_on, receive, left_with, close,
}

module _ (P : Conn → Type 0) where
  -- Besides `n` values of others, the pool's channel holds one for the listener exactly when it has a
  -- connection.
  abbrev pub HeldBy : ℕ → Option ℕ → Db → Type 0
  HeldBy n none db = Sized P n db
  HeldBy n (some k) db = Sized P (suc n) db

  abbrev pub Holds : ℕ → Listener → Type 0
  Holds n ln = HeldBy n (ln.cn) (ln.db)

  abbrev pub RetHolds : {A : Type 0} → ℕ → Ret A → Type 0
  RetHolds n none = ⊥
  RetHolds n (some (r, ln)) = Holds n ln

  abbrev pub EndHolds : ℕ → Option (Option Error × Listener) → Type 0
  EndHolds n none = ⊥
  EndHolds n (some (e, ln)) = Holds n ln

  abbrev FreedHolds : ℕ → Option Listener → Type 0
  FreedHolds n none = ⊥
  FreedHolds n (some ln) = Holds n ln

  -- A listener after `conn`, with the connection when there is no error.
  abbrev ConnHolds : ℕ → Ret ℕ → Type 0
  ConnHolds n none = ⊥
  ConnHolds n (some (inl e, ln)) = Holds n ln
  ConnHolds n (some (inr k, ln)) = (ln.cn ≡ some k) × Sized P (suc n) (ln.db)

  removed-FreedHolds :
      (n : ℕ) (ln : Listener) (o : Option ConnPool)
      → ((k : ℕ) → P (ln.db.conns k))
      → Kept n o
      → FreedHolds n (removed ln o)
  removed-FreedHolds n ln none h g = g
  removed-FreedHolds n ln (some p) h g = (g, h)

  close_held-FreedHolds :
      (n : ℕ) (ln : Listener) (o : Option ℕ)
      → ln.cn ≡ o
      → HeldBy n o (ln.db)
      → FreedHolds n (close_held ln o)
  close_held-FreedHolds n ln none e h = subst (λ o. HeldBy n o (ln.db)) (sym e) h
  close_held-FreedHolds n ln (some k) e h =
      removed-FreedHolds n ln (remove_conn (ln.db.pool) k) h.1
        (remove_conn-Kept (ln.db.pool) k n h.0)

  if-FreedHolds :
      (n : ℕ) (b : Bool) (x y : Option Listener)
      → FreedHolds n x
      → FreedHolds n y
      → FreedHolds n (if b then x else y)
  if-FreedHolds n true x y h g = h
  if-FreedHolds n false x y h g = g

  free_own_conn-FreedHolds :
      (n : ℕ) (ln : Listener) (e : Error) → Holds n ln → FreedHolds n (free_own_conn ln e)
  unfolding free_own_conn close_conn
  free_own_conn-FreedHolds n ln e h =
      if-FreedHolds n (is_bad_conn (some e) true) (close_held ln (ln.cn)) (some ln)
        (close_held-FreedHolds n ln (ln.cn) refl h) h

  with_error-RetHolds :
      (A : Type 0) (n : ℕ) (e : Error) (o : Option Listener)
      → FreedHolds n o
      → RetHolds {A = A} n (with_error {A = A} e o)
  with_error-RetHolds A n e none h = h
  with_error-RetHolds A n e (some ln) h = h

  left_with-EndHolds :
      (n : ℕ) (e : Option Error) (o : Option Listener) → FreedHolds n o → EndHolds n (left_with e o)
  left_with-EndHolds n e none h = h
  left_with-EndHolds n e (some ln) h = h

  -- The methods of a listener.
  abbrev pub AllHold : M (Unit {0}) → Formatter → ℕ → Env → Listener → Type 0
  AllHold init f n env ln =
      ((cs : List Bytes) → EndHolds n (listen_to init f env ln cs))
      × RetHolds n (receive init f env ln)
      × EndHolds n (close ln)

  module _ (init : M (Unit {0})) (f : Formatter) (init_returns : Returns P init)
      (listens : (cs : List Bytes) → Returns P (listen f cs)) where
    resubscribed-ConnHolds :
        (n : ℕ) (ln : Listener) (k : ℕ) (o : Outcome (Unit {0}))
        → Good P o
        → ln.cn ≡ some k
        → Sized P (suc n) (ln.db)
        → ConnHolds n (resubscribed ln k o)
    resubscribed-ConnHolds n ln k (ok u c) g e h = (e, store-Sized P (suc n) (ln.db) k c h g)
    resubscribed-ConnHolds n ln k (err x c) g e h =
        subst (λ o. HeldBy n o (store (ln.db) k c)) (sym e) (store-Sized P (suc n) (ln.db) k c h g)
    resubscribed-ConnHolds n ln k panic g e h = g
    resubscribed-ConnHolds n ln k no_fuel g e h = g

    resubscribe-ConnHolds :
        (n : ℕ) (ln : Listener) (k : ℕ) (cs : List Bytes)
        → ln.cn ≡ some k
        → Sized P (suc n) (ln.db)
        → ConnHolds n (resubscribe f ln k cs)
    resubscribe-ConnHolds n ln k [] e h = (e, h)
    resubscribe-ConnHolds n ln k (c ∷ cs) e h =
        resubscribed-ConnHolds n ln k (listen f (c ∷ cs) (ln.db.conns k))
          (listens (c ∷ cs) (ln.db.conns k) (h.1 k)) e h

    opened-ConnHolds :
        (n : ℕ) (ln : Listener) (o : Option ((Error ⊎ ℕ) × Db))
        → ln.cn ≡ none
        → Joined P n o
        → ConnHolds n (opened f ln o)
    opened-ConnHolds n ln none e h = h
    opened-ConnHolds n ln (some (inl x, db)) e h = subst (λ o. HeldBy n o db) (sym e) h
    opened-ConnHolds n ln (some (inr k, db)) e h =
        resubscribe-ConnHolds n (record ln { db = db; cn = some k }) k (ln.channels) refl h

    kept_or_opened-ConnHolds :
        (env : Env) (n : ℕ) (ln : Listener) (o : Option ℕ)
        → ln.cn ≡ o
        → HeldBy n o (ln.db)
        → ConnHolds n (kept_or_opened init f env ln o)
    kept_or_opened-ConnHolds env n ln (some k) e h = (e, h)
    kept_or_opened-ConnHolds env n ln none e h = opened-ConnHolds n ln (conn init env (ln.db)) e (
        subst (λ m. Joined P m (conn init env (ln.db))) h.0
          (conn-Joined P init init_returns env (ln.db) h.1))

    if-ConnHolds :
        (n : ℕ) (b : Bool) (x y : Ret ℕ)
        → ConnHolds n x
        → ConnHolds n y
        → ConnHolds n (if b then x else y)
    if-ConnHolds n true x y h g = h
    if-ConnHolds n false x y h g = g

    own_conn-ConnHolds :
        (env : Env) (n : ℕ) (ln : Listener) → Holds n ln → ConnHolds n (own_conn init f env ln)
    unfolding own_conn
    own_conn-ConnHolds env n ln h =
        if-ConnHolds n (ln.closed) (some (inl (internal_error listener_closed), ln)) _ h
          (kept_or_opened-ConnHolds env n ln (ln.cn) refl h)

    -- The listener with what a call on its connection left.
    stored-Holds :
        (n : ℕ) (ln : Listener) (k : ℕ) (c : Conn)
        → ln.cn ≡ some k
        → Sized P (suc n) (ln.db)
        → P c
        → Holds n (stored ln k c)
    stored-Holds n ln k c e h g =
        subst (λ o. HeldBy n o (store (ln.db) k c)) (sym e) (store-Sized P (suc n) (ln.db) k c h g)

    heard-EndHolds :
        (n : ℕ) (ln : Listener) (k : ℕ) (cs : List Bytes) (o : Outcome (Unit {0}))
        → Good P o
        → ln.cn ≡ some k
        → Sized P (suc n) (ln.db)
        → EndHolds n (heard init f ln k cs o)
    heard-EndHolds n ln k cs (ok u c) g e h = stored-Holds n ln k c e h g
    heard-EndHolds n ln k cs (err x c) g e h =
        left_with-EndHolds n (some x) _
          (free_own_conn-FreedHolds n (stored ln k c) x (stored-Holds n ln k c e h g))
    heard-EndHolds n ln k cs panic g e h = g
    heard-EndHolds n ln k cs no_fuel g e h = g

    listen_on-EndHolds :
        (n : ℕ) (cs : List Bytes) (r : Ret ℕ) → ConnHolds n r → EndHolds n (listen_on init f cs r)
    listen_on-EndHolds n cs none h = h
    listen_on-EndHolds n cs (some (inl e, ln)) h = h
    listen_on-EndHolds n cs (some (inr k, ln)) h =
        heard-EndHolds n ln k cs (listen f cs (ln.db.conns k))
          (listens cs (ln.db.conns k) (h.1.1 k)) h.0 h.1

    notified-RetHolds :
        (n : ℕ) (ln : Listener) (k : ℕ) (o : Outcome Notification)
        → Good P o
        → ln.cn ≡ some k
        → Sized P (suc n) (ln.db)
        → RetHolds n (notified init f ln k o)
    notified-RetHolds n ln k (ok u c) g e h = stored-Holds n ln k c e h g
    notified-RetHolds n ln k (err x c) g e h =
        with_error-RetHolds Notification n x _
          (free_own_conn-FreedHolds n (stored ln k c) x (stored-Holds n ln k c e h g))
    notified-RetHolds n ln k panic g e h = g
    notified-RetHolds n ln k no_fuel g e h = g

    receive_on-RetHolds :
        (n : ℕ) (r : Ret ℕ)
        → Returns P read_notification
        → ConnHolds n r
        → RetHolds n (receive_on init f r)
    receive_on-RetHolds n none t h = h
    receive_on-RetHolds n (some (inl e, ln)) t h =
        with_error-RetHolds Notification n e _ (free_own_conn-FreedHolds n ln e h)
    receive_on-RetHolds n (some (inr k, ln)) t h =
        notified-RetHolds n ln k (read_notification (ln.db.conns k)) (t (ln.db.conns k) (h.1.1 k))
          h.0 h.1

    if-EndHolds :
        (n : ℕ) (b : Bool) (x y : Option (Option Error × Listener))
        → EndHolds n x
        → EndHolds n y
        → EndHolds n (if b then x else y)
    if-EndHolds n true x y h g = h
    if-EndHolds n false x y h g = g

    -- Listen, Receive and Close return on a connection on which the calls that they make return, and keep the
    -- listener's place in the pool: besides the values of others the channel holds one for the listener exactly
    -- when it has a connection, so that a connection that is dropped gives its place back.
    pub listener-Holds :
        (env : Env) (n : ℕ) (ln : Listener)
        → Returns P read_notification
        → Holds n ln
        → AllHold init f n env ln
    unfolding listen_to receive close close_conn
    listener-Holds env n ln t h = (
      (λ cs. listen_on-EndHolds n cs (own_conn init f env ln) (own_conn-ConnHolds env n ln h)),
      receive_on-RetHolds n (own_conn init f env ln) t (own_conn-ConnHolds env n ln h),
      if-EndHolds n (ln.closed) (some (some (internal_error listener_closed), ln)) _ h (
          left_with-EndHolds n none _
            (close_held-FreedHolds n (record ln { closed = true }) (ln.cn) refl h)),
    )
