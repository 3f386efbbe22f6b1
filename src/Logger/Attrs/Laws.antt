-- ===== src/Logger/Attrs/Laws.antt =====
-- What the attributes of internal/logger/db_handler.go amount to.
use disapyr_link.Common.{
  ◌≡◌, refl, ap, ◌∙◌, List, [], ◌∷◌, ◌++◌, arith, Bytes, same, same_iff, if◌then◌else◌, sym, some,
}
use disapyr_link.Logger.Attrs.{
  Attr, leaf, group, Attrs, nil, cons, Map, put, get, qualified, resolve_attr, resolve_attrs,
  DbHandler, with_attrs, with_group, record_attrs,
}

-- The pairs that an attribute stands for, with the names of its groups before each key.
mutual
  unfolding qualified

  pub flatten : Bytes → Attr → List (Bytes × Bytes)
  flatten prefix (leaf key value) = (qualified prefix key, value) ∷ []
  flatten prefix (group key members) = flatten_all (qualified prefix key) members

  pub flatten_all : Bytes → Attrs → List (Bytes × Bytes)
  flatten_all prefix nil = []
  flatten_all prefix (cons a as') = flatten prefix a ++ flatten_all prefix as'

pub put_all : List (Bytes × Bytes) → Map → Map
put_all [] m = m
put_all ((k, v) ∷ ps) m = put_all ps (put k v m)

put_all-append :
    (ps qs : List (Bytes × Bytes)) (m : Map) → put_all (ps ++ qs) m ≡ put_all qs (put_all ps m)
unfolding put_all
put_all-append [] qs m = refl
put_all-append ((k, v) ∷ ps) qs m = put_all-append ps qs (put k v m)

mutual
  unfolding resolve_attr resolve_attrs flatten flatten_all put_all

  resolve_attr-flatten :
      (m : Map) (prefix : Bytes) (a : Attr) → resolve_attr m prefix a ≡ put_all (flatten prefix a) m
  resolve_attr-flatten m prefix (leaf key value) = refl
  resolve_attr-flatten m prefix (group key members) =
      resolve_attrs-flatten m (qualified prefix key) members

  resolve_attrs-flatten :
      (m : Map) (prefix : Bytes) (as' : Attrs)
      → resolve_attrs m prefix as' ≡ put_all (flatten_all prefix as') m
  resolve_attrs-flatten m prefix nil = refl
  resolve_attrs-flatten m prefix (cons a as') =
      ap (λ n. resolve_attrs n prefix as') (resolve_attr-flatten m prefix a)
      ∙ resolve_attrs-flatten (put_all (flatten prefix a) m) prefix as'
      ∙ sym (put_all-append (flatten prefix a) (flatten_all prefix as') m)

pub get-put : (k j v : Bytes) (m : Map) → get j (put k v m) ≡ (if same k j then some v else get j m)
unfolding get put
get-put k j v [] = refl
get-put k j v ((i, w) ∷ m) =
    ground (arith, same_iff k j, same_iff i k, same_iff i j, get-put k j v m)

-- The attributes that were given before a group was opened keep their keys: the record that a handler
-- builds is the pairs given to `WithAttrs`, under the groups that were open then, and behind them those
-- of the record under the new group; the later of two pairs with one key wins.
pub record_attrs-with_group :
    (h : DbHandler) (before : Attrs) (name : Bytes) (attrs : Attrs)
    → record_attrs (with_group (with_attrs h before) name) attrs
      ≡ put_all
          (flatten_all h.pre_group before ++ flatten_all (qualified h.pre_group name) attrs)
          h.pre_attrs
unfolding record_attrs with_group with_attrs qualified
record_attrs-with_group h before name attrs =
    resolve_attrs-flatten (resolve_attrs h.pre_attrs h.pre_group before)
      (qualified h.pre_group name) attrs
    ∙ ap (put_all (flatten_all (qualified h.pre_group name) attrs))
        (resolve_attrs-flatten h.pre_attrs h.pre_group before)
    ∙ sym (
        put_all-append (flatten_all h.pre_group before)
          (flatten_all (qualified h.pre_group name) attrs) h.pre_attrs)
