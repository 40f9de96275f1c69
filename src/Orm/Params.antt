-- ===== src/Orm/Params.antt =====
-- `Query.FormatQuery`: the model as one more parameter.
use go_pg.Base.{◌≡◌, refl, ap, none, some, List, [], ◌∷◌, ◌++◌, Bytes}
use go_pg.Types.Append.{null}
use go_pg.Orm.Format.{Param, of_value, last_param, but_last_param, model_of, without_model}
use go_pg.Orm.Template.{Literal, render}
use go_pg.Orm.Filled.{filled, bare, Appends, Literals, format-bare, format-bare_without}
use go_pg.Orm.Scalars.{of_value-appends}
use go_pg.Orm.Query.{Model, Body}
use go_pg.Orm.Clauses.{as_param, formatter_of, format_query, text_or_empty}

last_param-append : (ps : List Param) (p : Param) → last_param (ps ++ p ∷ []) ≡ some p
unfolding last_param
last_param-append [] p = refl
last_param-append (q ∷ []) p = refl
last_param-append (q ∷ r ∷ ps) p = last_param-append (r ∷ ps) p

but_last_param-append : (ps : List Param) (p : Param) → but_last_param (ps ++ p ∷ []) ≡ ps
unfolding but_last_param
but_last_param-append [] p = refl
but_last_param-append (q ∷ []) p = refl
but_last_param-append (q ∷ r ∷ ps) p = ap (◌∷◌ q) (but_last_param-append (r ∷ ps) p)

without_model-append :
    (ps : List Param) (m : Model) → without_model (ps ++ as_param (some m) ∷ []) ≡ ps
without_model-append ps m =
    rw (without_model, last_param-append ps (as_param (some m)))
      (but_last_param-append ps (as_param (some m)))

Appends-null : (ps : List Param) → Appends ps → Appends (ps ++ of_value null ∷ [])
Appends-null [] h = ((λ b. of_value-appends null b tt), tt)
Appends-null (p ∷ ps) h = (h.0, Appends-null ps h.1)

-- A query without a model formats its text as if NULL were given as one more parameter: a mark too many,
-- which a query with a model leaves as it is, becomes NULL.
format_query-no_model :
    (d : Body) (dst s k : Bytes) (ss : List Bytes) (ps : List Param)
    → d.model ≡ none
    → Literal s
    → Literals (k ∷ ss)
    → Appends ps
    → format_query d dst (s ++ render (bare (k ∷ ss))) (some ps)
      ≡ dst ++ (s ++ filled (ps ++ of_value null ∷ []) (k ∷ ss))
unfolding format_query
format_query-no_model d dst s k ss ps m h r a = rw m (
    ap text_or_empty (
      format-bare (formatter_of (d.fmter)) dst s k ss (ps ++ of_value null ∷ []) h r
        (Appends-null ps a) (ap model_of (last_param-append ps (of_value null)))))

-- A query with a model formats its text with its own parameters only: a mark without one stays.
format_query-model :
    (d : Body) (model : Model) (dst s k : Bytes) (ss : List Bytes) (ps : List Param)
    → d.model ≡ some model
    → Literal s
    → Literals (k ∷ ss)
    → Appends ps
    → format_query d dst (s ++ render (bare (k ∷ ss))) (some ps) ≡ dst ++ (s ++ filled ps (k ∷ ss))
unfolding format_query
format_query-model d model dst s k ss ps m h r a = rw m (
    ap text_or_empty (
      format-bare_without (formatter_of (d.fmter)) dst s k ss (ps ++ as_param (some model) ∷ []) ps
        h r a (without_model-append ps model)))
