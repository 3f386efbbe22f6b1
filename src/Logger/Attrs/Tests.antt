-- ===== src/Logger/Attrs/Tests.antt =====
-- Attributes for the theorems about internal/logger/db_handler.go.
use disapyr_link.Common.{pos, ◌≡◌, refl, [], ◌∷◌, ◌++◌, same, codes}
use disapyr_link.Logger.Attrs.{
  Attrs, leaf, group, nil, cons, DbHandler, record_attrs, resolve_attrs, with_group, with_attrs,
  qualified,
}
use disapyr_link.Logger.Attrs.Laws.{flatten_all, put_all, record_attrs-with_group}

abbrev handler : DbHandler
handler = record { min_level = pos 4; pre_attrs = []; pre_group = codes "g" }

abbrev given : Attrs
given = cons (group (codes "a") (cons (leaf (codes "k") (codes "1")) nil)) nil

record_attrs-with_group_example :
    record_attrs (with_group (with_attrs handler given) (codes "h")) given
    ≡ put_all
        (flatten_all (codes "g") given ++ flatten_all (qualified (codes "g") (codes "h")) given)
        []
record_attrs-with_group_example = record_attrs-with_group handler given (codes "h") given

record_attrs_keys :
    record_attrs (with_group (with_attrs handler given) (codes "h")) given
    ≡ (codes "g.a.k", codes "1") ∷ (codes "g.h.a.k", codes "1") ∷ []
unfolding record_attrs with_group with_attrs same resolve_attrs
record_attrs_keys = refl
