-- ===== src/Handler/Mask/Laws.antt =====
-- What `maskTokenInPath` of internal/handler/handler.go hides, and what it keeps.
use disapyr_link.Common.{
  ◌≡◌, refl, ap, ◌∙◌, ◌≢◌, false, List, [], ◌∷◌, ◌++◌, append-nil, Bytes, same, sym, codes, Lacks,
}
use disapyr_link.Strings.{split, join}
use disapyr_link.Strings.Splitting.{split-append, split-Lacks, split-ne-nil, join-split, join-cons}
use disapyr_link.Handler.Mask.{slash, mark, mask_parts, mask_token_in_path}

same-nil : (t : Bytes) → t ≢ [] → same t [] ≡ false
unfolding same
same-nil [] h = absurd (h refl)
same-nil (c ∷ t) h = refl

split-secret : (r : Bytes) → split slash (codes "/s/" ++ r) ≡ [] ∷ codes "s" ∷ split slash r
unfolding split
split-secret r = refl

mask-step :
    (r : Bytes)
    → mask_token_in_path (codes "/s/" ++ r)
      ≡ mask_parts (codes "/s/" ++ r) ([] ∷ codes "s" ∷ split slash r)
unfolding mask_token_in_path
mask-step r = refl

join-masked :
    (ps : List Bytes)
    → join slash ([] ∷ codes "s" ∷ mark ∷ ps) ≡ codes "/s/" ++ join slash (mark ∷ ps)
unfolding join
join-masked ps = refl

mask_parts-secret :
    (path t : Bytes) (ps : List Bytes)
    → t ≢ []
    → mask_parts path ([] ∷ codes "s" ∷ t ∷ ps) ≡ codes "/s/" ++ join slash (mark ∷ ps)
mask_parts-secret path t ps h = rw (same-nil t h) (join-masked ps)

-- What may stand behind the token: nothing, or a slash and more.
abbrev pub IsTail : Bytes → Type 0
IsTail [] = Unit
IsTail (c ∷ r) = c ≡ slash

-- In a path "/s/{token}" or "/s/{token}/…" the token, whatever it is, is replaced by "[token]", and
-- the rest is kept.
pub mask_token_in_path-secret :
    (t r : Bytes)
    → t ≢ []
    → Lacks slash t
    → IsTail r
    → mask_token_in_path (codes "/s/" ++ (t ++ r)) ≡ codes "/s/[token]" ++ r
mask_token_in_path-secret t [] h k tail = rw (append-nil t) (
    mask-step t
    ∙ ap (λ ps. mask_parts (codes "/s/" ++ t) ([] ∷ codes "s" ∷ ps)) (split-Lacks slash t k)
    ∙ mask_parts-secret (codes "/s/" ++ t) t [] h
    ∙ (unfold join in refl))
mask_token_in_path-secret t (c ∷ r) h k tail = rw tail (
    mask-step (t ++ slash ∷ r)
    ∙ ap (λ ps. mask_parts (codes "/s/" ++ (t ++ slash ∷ r)) ([] ∷ codes "s" ∷ ps))
        (split-append slash t r ∙ ap (λ ps. ps ++ split slash r) (split-Lacks slash t k))
    ∙ mask_parts-secret (codes "/s/" ++ (t ++ slash ∷ r)) t (split slash r) h
    ∙ ap (λ q. codes "/s/" ++ q)
        (join-cons slash mark (split slash r) (split-ne-nil slash r)
          ∙ ap (λ q. mark ++ slash ∷ q) (join-split slash r)))

-- The masked path says nothing of the token: two tokens give the same.
pub mask_token_in_path-hides :
    (t t' r : Bytes)
    → t ≢ []
    → t' ≢ []
    → Lacks slash t
    → Lacks slash t'
    → IsTail r
    → mask_token_in_path (codes "/s/" ++ (t ++ r)) ≡ mask_token_in_path (codes "/s/" ++ (t' ++ r))
mask_token_in_path-hides t t' r h h' k k' tail =
    mask_token_in_path-secret t r h k tail ∙ sym (mask_token_in_path-secret t' r h' k' tail)
