-- ===== src/Config/Redact/Values.antt =====
-- The grammar of well-formed connection strings, key=value pairs with a space between them whose values
-- are plain, or quoted with escapes, and how `kvDSNRedact` of internal/config/config.go scans a value.
use disapyr_link.Common.{
  ℕ, ◌≡◌, refl, ap, ◌∙◌, ◌≢◌, Bool, true, false, List, [], ◌∷◌, ◌++◌, map, arith, Bytes,
  if◌then◌else◌, append_assoc, All, All-imp,
}
use disapyr_link.Config.Redact.{
  span, space, equals, quote, backslash, in_value, ended, passed, scan_quoted, is_sensitive,
  written, hidden, hidden_quoted, quoted_value, plain_value, value,
}

pub data Item : Type 0 where
  lit esc : ℕ → Item

pub data Val : Type 0 where
  plain : Bytes → Val
  quoted : List Item → Val

pub record Pair : Type 0 where
  pub key : Bytes
  pub val : Val

abbrev pub print_items : List Item → Bytes
print_items [] = []
print_items (lit c ∷ is) = c ∷ print_items is
print_items (esc c ∷ is) = backslash ∷ c ∷ print_items is

abbrev pub print_val : Val → Bytes
print_val (plain v) = v
print_val (quoted is) = quote ∷ (print_items is ++ quote ∷ [])

abbrev pub print_pair : Pair → Bytes
print_pair p = p.key ++ equals ∷ print_val p.val

-- The pairs with a space before each.
abbrev pub print_more : List Pair → Bytes
print_more [] = []
print_more (p ∷ ps) = space ∷ (print_pair p ++ print_more ps)

abbrev pub print_dsn : List Pair → Bytes
print_dsn [] = []
print_dsn (p ∷ ps) = print_pair p ++ print_more ps

abbrev pub IsItem : Item → Type 0
IsItem (lit c) = (c ≢ quote) × (c ≢ backslash)
IsItem (esc c) = Unit

abbrev pub StartsPlain : Bytes → Type 0
StartsPlain [] = Unit
StartsPlain (c ∷ s) = c ≢ quote

abbrev pub IsVal : Val → Type 0
IsVal (plain v) = All (λ c. c ≢ space) v × StartsPlain v
IsVal (quoted is) = All IsItem is

abbrev pub IsPair : Pair → Type 0
IsPair p = All (λ c. (c ≢ space) × (c ≢ equals)) p.key × IsVal p.val

-- The value of a sensitive key is replaced, in the form that it had.
abbrev pub hide_val : Val → Val
hide_val (plain v) = plain hidden
hide_val (quoted is) = quoted (map lit hidden)

abbrev pub hide : Pair → Pair
hide p = if is_sensitive p.key then record p { val = hide_val p.val } else p

abbrev pub Stops : (ℕ → Bool) → Bytes → Type 0
Stops p [] = Unit
Stops p (c ∷ s) = p c ≡ false

pub span-append :
    (p : ℕ → Bool) (u rest : Bytes)
    → All (λ c. p c ≡ true) u
    → Stops p rest
    → span p (u ++ rest) ≡ (u, rest)
unfolding span
span-append p [] [] h k = refl
span-append p [] (c ∷ rest) h k = rw k
span-append p (c ∷ u) rest (h, hs) k = rw (h, span-append p u rest hs k)

pub scan_quoted-step :
    (c : ℕ) (t : Bytes)
    → t ≢ []
    → c ≢ quote
    → c ≢ backslash
    → scan_quoted (c ∷ t) ≡ passed (c ∷ []) (scan_quoted t)
unfolding scan_quoted
scan_quoted-step c [] h k l = absurd (h refl)
scan_quoted-step c (d ∷ t) h k l = ground arith

scan_quoted-skip :
    (c : ℕ) (t : Bytes)
    → scan_quoted (backslash ∷ c ∷ t) ≡ passed (backslash ∷ c ∷ []) (scan_quoted t)
unfolding scan_quoted
scan_quoted-skip c t = refl

scan_quoted-close : (t : Bytes) → scan_quoted (quote ∷ t) ≡ ended (quote ∷ []) t
unfolding scan_quoted
scan_quoted-close [] = refl
scan_quoted-close (d ∷ t) = refl

pub tail-ne-nil : (s t : Bytes) (c : ℕ) → s ++ c ∷ t ≢ []
tail-ne-nil [] t c h = cc
tail-ne-nil (d ∷ s) t c h = cc

pub scan_quoted-items :
    (is : List Item) (rest : Bytes)
    → All IsItem is
    → scan_quoted (print_items is ++ quote ∷ rest) ≡ ended (print_items is ++ quote ∷ []) rest
scan_quoted-items [] rest h = scan_quoted-close rest
scan_quoted-items (lit c ∷ is) rest ((h, k), hs) = rw (
  scan_quoted-step c (print_items is ++ quote ∷ rest) (tail-ne-nil (print_items is) rest quote) h k,
  scan_quoted-items is rest hs,
)
scan_quoted-items (esc c ∷ is) rest (_, hs) =
    rw (scan_quoted-skip c (print_items is ++ quote ∷ rest), scan_quoted-items is rest hs)

-- What stands behind a pair: nothing, or a space.
abbrev pub IsRest : Bytes → Type 0
IsRest [] = Unit
IsRest (c ∷ s) = c ≡ space

stops : (rest : Bytes) → IsRest rest → Stops in_value rest
stops [] h = tt
stops (c ∷ rest) h = ground arith

in_values : (v : Bytes) → All (λ c. c ≢ space) v → All (λ c. in_value c ≡ true) v
in_values v = All-imp v (λ c h. ground arith)

value-unquoted :
    (sensitive : Bool) (c : ℕ) (s : Bytes)
    → c ≢ quote
    → value sensitive (c ∷ s) ≡ plain_value sensitive (span in_value (c ∷ s))
unfolding value
value-unquoted sensitive c s h = ground arith

plain_value-written :
    (sensitive : Bool) (u rest : Bytes)
    → plain_value sensitive (u, rest) ≡ written (if sensitive then hidden else u) rest
plain_value-written true u rest = refl
plain_value-written false u rest = refl

value-plain :
    (sensitive : Bool) (v rest : Bytes)
    → All (λ c. c ≢ space) v
    → StartsPlain v
    → IsRest rest
    → value sensitive (v ++ rest) ≡ written (if sensitive then hidden else v) rest
value-plain sensitive [] [] h k r = unfold value in refl
value-plain sensitive [] (d ∷ rest) h k r =
    value-unquoted sensitive d rest (λ e. ground arith)
    ∙ ap (plain_value sensitive) (span-append in_value [] (d ∷ rest) tt (stops (d ∷ rest) r))
    ∙ plain_value-written sensitive [] (d ∷ rest)
value-plain sensitive (c ∷ v) rest h k r =
    value-unquoted sensitive c (v ++ rest) k
    ∙ ap (plain_value sensitive)
        (span-append in_value (c ∷ v) rest (in_values (c ∷ v) h) (stops rest r))
    ∙ plain_value-written sensitive (c ∷ v) rest

value-quoted :
    (sensitive : Bool) (is : List Item) (rest : Bytes)
    → All IsItem is
    → value sensitive (quote ∷ (print_items is ++ quote ∷ rest))
      ≡ written (if sensitive then hidden_quoted else quote ∷ (print_items is ++ quote ∷ [])) rest
value-quoted true is rest h = unfold value in ap (quoted_value true) (scan_quoted-items is rest h)
value-quoted false is rest h = unfold value in ap (quoted_value false) (scan_quoted-items is rest h)

-- The value of a pair is written as it is, or hidden.
pub value-pair :
    (sensitive : Bool) (v : Val) (rest : Bytes)
    → IsVal v
    → IsRest rest
    → value sensitive (print_val v ++ rest)
      ≡ written (print_val (if sensitive then hide_val v else v)) rest
value-pair true (plain v) rest (h, k) r = value-plain true v rest h k r
value-pair false (plain v) rest (h, k) r = value-plain false v rest h k r
value-pair true (quoted is) rest h r =
    rw (append_assoc (print_items is) (quote ∷ []) rest) (value-quoted true is rest h)
value-pair false (quoted is) rest h r =
    rw (append_assoc (print_items is) (quote ∷ []) rest) (value-quoted false is rest h)
