-- ===== src/Logger/Attrs.antt =====
-- The attributes of internal/logger/db_handler.go: `resolveAttr`, `WithAttrs` and `WithGroup`, and the
-- attributes of the record that `Handle` builds. A value is what `Value.Resolve` gives: a group, or
-- another value by its text. A Go map is a list of pairs, without a second pair for a key.
pub mod Laws
mod Tests
use disapyr_link.Common.{
  ℤ, ltb_ℤ, Bool, not, List, [], ◌∷◌, ◌++◌, Bytes, same, if◌then◌else◌, codes, Option, none, some,
}

mutual
  pub data Attr : Type 0 where
    leaf : Bytes → Bytes → Attr
    group : Bytes → Attrs → Attr

  pub data Attrs : Type 0 where
    nil : Attrs
    cons : Attr → Attrs → Attrs

abbrev pub Map : Type 0
Map = List (Bytes × Bytes)

-- m[key] = value
unfoldable pub put : Bytes → Bytes → Map → Map
put key value [] = (key, value) ∷ []
put key value ((k, v) ∷ m) = if same k key then (key, value) ∷ m else (k, v) ∷ put key value m

unfoldable pub get : Bytes → Map → Option Bytes
get key [] = none
get key ((k, v) ∷ m) = if same k key then some v else get key m

-- group + "." + key, or the key alone
unfoldable pub qualified : Bytes → Bytes → Bytes
qualified prefix key = if same prefix [] then key else prefix ++ (codes "." ++ key)

-- resolveAttr, and its loop over the members of a group
unfoldable mutual
  unfolding put qualified

  pub resolve_attr : Map → Bytes → Attr → Map
  resolve_attr m prefix (leaf key value) = put (qualified prefix key) value m
  resolve_attr m prefix (group key members) = resolve_attrs m (qualified prefix key) members

  pub resolve_attrs : Map → Bytes → Attrs → Map
  resolve_attrs m prefix nil = m
  resolve_attrs m prefix (cons a as') = resolve_attrs (resolve_attr m prefix a) prefix as'

-- The fields of a DBHandler that its copies do not share.
pub record DbHandler : Type 0 where
  pub min_level : ℤ
  pub pre_attrs : Map
  pub pre_group : Bytes

-- NewDBHandler, for a level.
abbrev pub new_db_handler : ℤ → DbHandler
new_db_handler level = record { min_level = level; pre_attrs = []; pre_group = [] }

-- Enabled
unfoldable pub enabled : DbHandler → ℤ → Bool
enabled h level = not (ltb_ℤ level h.min_level)

-- WithAttrs
unfoldable pub with_attrs : DbHandler → Attrs → DbHandler
with_attrs h attrs = record h { pre_attrs = resolve_attrs h.pre_attrs h.pre_group attrs }

-- WithGroup
unfoldable pub with_group : DbHandler → Bytes → DbHandler
with_group h name = record h {
  pre_group = if same h.pre_group [] then name else h.pre_group ++ (codes "." ++ name);
}

-- The attributes of a record, as Handle builds them.
unfoldable pub record_attrs : DbHandler → Attrs → Map
record_attrs h attrs = resolve_attrs h.pre_attrs h.pre_group attrs
