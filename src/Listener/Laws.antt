-- ===== src/Listener/Laws.antt =====
-- The channels of a listener, and what a listener does when it is closed.
use go_pg.Base.{
  ℕ, ◌≡◌, refl, sym, ap, ◌∙◌, Bool, true, false, ◌||◌, arith, Option, none, some, inl, inr, List,
  [], ◌∷◌, ◌++◌, Bytes, equal, Bool-cases, if◌then◌else◌,
}
use go_pg.Errors.{Error, internal_error, listener_closed}
use go_pg.Net.{Conn, err, M}
use go_pg.Pool.{ConnPool}
use go_pg.Pool.Get.{Env, remove_conn}
use go_pg.Database.{Db, conn}
use go_pg.Orm.Format.{Formatter}
use go_pg.Listener.{
  Listener, contains, append_if_not_exists, listen, stored, own_conn, listen_to, receive, close,
  close_conn, close_held, removed, left_with, free_own_conn,
}

abbrev closed_of : Listener → Option Listener → Bool
closed_of d none = d.closed
closed_of d (some ln) = ln.closed

abbrev closed_in : Listener → Option (Option Error × Listener) → Bool
closed_in d none = d.closed
closed_in d (some (e, ln)) = ln.closed

removed-closed :
    (ln ln' : Listener) (o : Option ConnPool) → removed ln o ≡ some ln' → ln'.closed ≡ ln.closed
removed-closed ln ln' none h = absurd cc
removed-closed ln ln' (some p) h = ap (closed_of ln) (sym h)

-- What one of the methods of a closed listener returns.
abbrev pub Refused : Formatter → M (Unit {0}) → Env → Listener → Type 0
Refused f init env ln =
    ((cs : List Bytes)
      → listen_to init f env ln cs ≡ some (some (internal_error listener_closed), ln))
    × (receive init f env ln ≡ some (inl (internal_error listener_closed), ln))
    × (close ln ≡ some (some (internal_error listener_closed), ln))

closed-Refused :
    (f : Formatter) (init : M (Unit {0})) (env : Env) (ln : Listener)
    → ln.closed ≡ true
    → Refused f init env ln
unfolding listen_to receive close own_conn free_own_conn
closed-Refused f init env ln h = rw (h, Refused) ((λ cs. refl), refl, refl)

close_held-closed :
    (ln ln' : Listener) (o : Option ℕ) → close_held ln o ≡ some ln' → ln'.closed ≡ ln.closed
close_held-closed ln ln' none h = ap (λ r. closed_of ln r) (sym h)
close_held-closed ln ln' (some k) h = removed-closed ln ln' (remove_conn (ln.db.pool) k) h

-- A listener that Close has answered answers Listen, Receive and Close with the error that it is closed, and
-- takes no connection and changes nothing.
close-Refused :
    (f : Formatter) (init : M (Unit {0})) (env : Env) (ln ln' : Listener) (e : Option Error)
    → close ln ≡ some (e, ln')
    → Refused f init env ln'
unfolding close close_conn
close-Refused f init env ln ln' e h = closed-Refused f init env ln' (closing (ln.closed) refl h)
  where
    closing :
        (b : Bool)
        → ln.closed ≡ b
        → (if b
            then some (some (internal_error listener_closed), ln)
            else left_with none (close_held (record ln { closed = true }) (ln.cn)))
          ≡ some (e, ln')
        → ln'.closed ≡ true
    closing true q h = ap (λ r. closed_in ln r) (sym h) ∙ q
    closing false q h = closing_false (close_held (record ln { closed = true }) (ln.cn)) refl h
      where
        closing_false :
            (r : Option Listener)
            → close_held (record ln { closed = true }) (ln.cn) ≡ r
            → left_with none r ≡ some (e, ln')
            → ln'.closed ≡ true
        closing_false none g h = absurd cc
        closing_false (some m) g h =
            ap (λ r. closed_in ln r) (sym h)
            ∙ close_held-closed (record ln { closed = true }) m (ln.cn) g

-- A new connection on which the channels could not be subscribed stays with the listener: `conn` returns
-- the error once, and from then on the connection, on which nothing was subscribed.
pub unsubscribed_kept :
    (f : Formatter) (init : M (Unit {0})) (env later : Env) (ln : Listener) (k : ℕ) (db : Db)
    (c : Bytes) (cs : List Bytes) (e : Error) (cn : Conn)
    → ln.closed ≡ false
    → ln.cn ≡ none
    → ln.channels ≡ c ∷ cs
    → conn init env (ln.db) ≡ some (inr k, db)
    → listen f (c ∷ cs) (db.conns k) ≡ err e cn
    → (after : Listener) × (own_conn init f env ln ≡ some (inl e, after))
      × (own_conn init f later after ≡ some (inr k, after))
unfolding own_conn
unsubscribed_kept f init env later ln k db c cs e cn hc hn hs ho hl = (
  stored (record ln { db = db; cn = some k }) k cn,
  simp (own_conn, hc, hn, ho, hs, hl),
  simp (own_conn, hc),
)

contains-append :
    (ss : List Bytes) (e x : Bytes) → contains (ss ++ e ∷ []) x ≡ contains ss x || equal e x
unfolding contains
contains-append [] e x = ground arith
contains-append (s ∷ ss) e x = ground (arith, contains-append ss e x)

equal→≡ : (a b : Bytes) → equal a b ≡ true → a ≡ b
unfolding equal
equal→≡ [] [] h = refl
equal→≡ [] (y ∷ b) h = absurd cc
equal→≡ (x ∷ a) [] h = absurd cc
equal→≡ (x ∷ a) (y ∷ b) h = elim (Bool-cases (equal a b)) [
  | inl e ↦ ground (arith, equal→≡ a b e)
  | inr e ↦ absurd (ground arith)
]

added :
    (ss : List Bytes) (e x : Bytes) (b : Bool)
    → contains ss e ≡ b
    → contains (if b then ss else ss ++ e ∷ []) x ≡ contains ss x || equal e x
added ss e x false h = contains-append ss e x
added ss e x true h = elim (Bool-cases (equal e x)) [
  | inl g ↦ rw (g, sym (ap (contains ss) (equal→≡ e x g)), h) refl
  | inr g ↦ ground (arith, g)
]

-- The channels behind `appendIfNotExists` are the old ones and the new ones.
contains-append_if_not_exists :
    (ss es : List Bytes) (x : Bytes)
    → contains (append_if_not_exists ss es) x ≡ contains ss x || contains es x
unfolding append_if_not_exists contains
contains-append_if_not_exists ss [] x = ground arith
contains-append_if_not_exists ss (e ∷ es) x =
    contains-append_if_not_exists (if contains ss e then ss else ss ++ e ∷ []) es x
    ∙ ground (arith, added ss e x (contains ss e) refl)
