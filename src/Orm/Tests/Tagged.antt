-- ===== src/Orm/Tests/Tagged.antt =====
-- The options of a tag, read for one of them.
use go_pg.Base.{◌≡◌, refl, some, List, [], ◌∷◌, Bytes, codes}
use go_pg.Orm.Tags.{get}
use go_pg.Orm.Tags.Split.{joined, get-first_with}

abbrev tag_of_id : List Bytes
tag_of_id = codes "pk" ∷ codes "null" ∷ []

get-first_with_example : get (joined tag_of_id) (codes "nu") ≡ some (codes "ll")
unfolding go_pg.Orm.Tags.after_prefix
get-first_with_example =
    get-first_with b'n' (codes "u") tag_of_id
      ((refl, (refl, tt)), ((refl, (refl, (refl, (refl, tt)))), tt))
