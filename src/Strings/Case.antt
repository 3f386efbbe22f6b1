-- ===== src/Strings/Case.antt =====
-- Case folding of ASCII texts.
use disapyr_link.Common.{
  ℕ, ◌≡◌, refl, ap, true, [], ◌∷◌, ◌++◌, arith, Bytes, ascii_byte, lower_byte, lower_ascii,
}
use disapyr_link.Strings.{is_ascii}

pub is_ascii-append :
    (s t : Bytes) → is_ascii s ≡ true → is_ascii t ≡ true → is_ascii (s ++ t) ≡ true
is_ascii-append [] t h k = k
is_ascii-append (c ∷ s) t h k = ground (arith, is_ascii-append s t)

pub lower_ascii-append : (s t : Bytes) → lower_ascii (s ++ t) ≡ lower_ascii s ++ lower_ascii t
unfolding lower_ascii
lower_ascii-append [] t = refl
lower_ascii-append (c ∷ s) t = ap (λ r. lower_byte c ∷ r) (lower_ascii-append s t)

lower_byte_idem : (c : ℕ) → lower_byte (lower_byte c) ≡ lower_byte c
unfolding lower_byte
lower_byte_idem c = ground arith

pub lower_ascii_idem : (s : Bytes) → lower_ascii (lower_ascii s) ≡ lower_ascii s
unfolding lower_ascii
lower_ascii_idem [] = refl
lower_ascii_idem (c ∷ s) = cc (lower_byte_idem c, lower_ascii_idem s)

pub is_ascii-lower : (s : Bytes) → is_ascii s ≡ true → is_ascii (lower_ascii s) ≡ true
unfolding lower_ascii
is_ascii-lower [] h = refl
is_ascii-lower (c ∷ s) h = ground (arith, is_ascii-lower s, lower_byte-ascii c)
  where
    lower_byte-ascii : (c : ℕ) → ascii_byte c ≡ true → ascii_byte (lower_byte c) ≡ true
    lower_byte-ascii c h = unfold lower_byte in ground arith
