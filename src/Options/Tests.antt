-- ===== src/Options/Tests.antt =====
-- Options of small URLs.
use go_pg.Base.{Option, none, some, [], ◌∷◌, Bytes, codes}
use go_pg.Options.{Options, Url, UrlQuery, zero_options, init}
use go_pg.Options.Laws.{Complete, init-Complete}

init-Complete_example : Complete (init zero_options)
init-Complete_example = init-Complete zero_options

-- Every text is the same URL.
abbrev one_url : Url
one_url = record {
  scheme = codes "postgres";
  host = codes "h";
  user = none;
  path = codes "/db";
  raw_query = [];
}

abbrev parse : Bytes → Option Url
parse s = some one_url

abbrev parse_query : Bytes → Option UrlQuery
parse_query s = some ((codes "sslmode", codes "disable" ∷ []) ∷ [])

abbrev the_options : Options
the_options = record zero_options {
  addr = codes "h:5432";
  user = codes "postgres";
  database = codes "db";
}

url_of : Option Url → Url
url_of none = one_url
url_of (some u) = u
