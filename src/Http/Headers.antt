-- ===== src/Http/Headers.antt =====
-- Header maps.
use disapyr_link.Common.{◌≡◌, [], ◌∷◌, arith, Bytes, same, same_iff, if◌then◌else◌}
use disapyr_link.Http.{Headers, get_header, set_header, del_header}

pub get_header-del :
    (k j : Bytes) (hs : Headers)
    → get_header j (del_header k hs) ≡ (if same k j then [] else get_header j hs)
unfolding get_header del_header
get_header-del k j [] = ground arith
get_header-del k j ((i, v) ∷ hs) =
    ground (arith, same_iff k j, same_iff i k, same_iff i j, get_header-del k j hs)

pub get_header-set :
    (k j v : Bytes) (hs : Headers)
    → get_header j (set_header k v hs) ≡ (if same k j then v else get_header j hs)
unfolding get_header set_header
get_header-set k j v hs = ground (arith, get_header-del k j hs)
