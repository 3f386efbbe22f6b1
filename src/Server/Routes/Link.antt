-- ===== src/Server/Routes/Link.antt =====
-- Which handler of cmd/server/main.go gets the requests for the link to a secret.
use disapyr_link.Common.{
  ℕ, ◌≡◌, refl, ap, ◌∙◌, ◌≢◌, if◌then◌else◌, subst, true, false, not, ◌||◌, List, [], ◌∷◌, ◌++◌,
  map, arith, Bytes, same, codes, All, Lacks, has_prefix, sym,
}
use disapyr_link.Strings.{split}
use disapyr_link.Strings.Splitting.{split-Lacks, split-append}
use disapyr_link.Encoding.Hex
use disapyr_link.Encoding.Hex.{AreBytes, IsHexDigit, encode-IsHexDigit}
use disapyr_link.Http.{Request, World}
use disapyr_link.Handler.RateLimit.{Buckets}
use disapyr_link.Server.Mux.{choose, segments_of, is_clean}
use disapyr_link.Server.Routes.{
  chosen, page, reveal, get, post, Deps, Turn, Limiters, handle, routes, slash_missing, serve_mux,
}

-- `url.PathUnescape` leaves a text without a percent sign as it is.
abbrev pub KeepsPlain : (Bytes → Bytes) → Type 0
KeepsPlain unescape = (u : Bytes) → Lacks b'%' u → unescape u ≡ u

-- A token as `generateToken` makes it from at least one byte.
pub record IsToken (t : Bytes) : Type 0 where
  pub slash : Lacks b'/' t
  pub percent : Lacks b'%' t
  pub stop : Lacks b'.' t
  pub filled : t ≢ []

digits-Lacks : (s : Bytes) → All IsHexDigit s → Lacks b'/' s × Lacks b'%' s × Lacks b'.' s
digits-Lacks [] h = (tt, tt, tt)
digits-Lacks (c ∷ s) (h, hs) =
    let (a, b, d) = digits-Lacks s hs in ((ground arith, a), (ground arith, b), (ground arith, d))

pub encode-IsToken : (b : ℕ) (bs : Bytes) → AreBytes (b ∷ bs) → IsToken (Hex.encode (b ∷ bs))
unfolding Hex.encode
encode-IsToken b bs h =
    let (slash, percent, stop) =
      digits-Lacks (Hex.encode (b ∷ bs)) (encode-IsHexDigit (b ∷ bs) h) in
    record { slash = slash; percent = percent; stop = stop; filled = λ e. cc }

-- The path of the page, and that of the request that reveals the secret.
abbrev pub page_path : Bytes → Bytes
page_path t = codes "/s/" ++ t

abbrev pub reveal_path : Bytes → Bytes
reveal_path t = codes "/s/" ++ (t ++ codes "/reveal")

page-segments : (t : Bytes) → Lacks b'/' t → segments_of (page_path t) ≡ codes "s" ∷ t ∷ []
unfolding segments_of split
page-segments t h = rw (split-Lacks b'/' t h) refl

reveal-segments :
    (t : Bytes) → Lacks b'/' t → segments_of (reveal_path t) ≡ codes "s" ∷ t ∷ codes "reveal" ∷ []
unfolding segments_of split
reveal-segments t h = rw (split-append b'/' t (codes "reveal"), split-Lacks b'/' t h) refl

page-is_clean :
    (c : ℕ) (cs : Bytes) → Lacks b'/' (c ∷ cs) → c ≢ b'.' → is_clean (page_path (c ∷ cs)) ≡ true
unfolding is_clean has_prefix same
page-is_clean c cs h k = rw (page-segments (c ∷ cs) h) (ground arith)

reveal-is_clean :
    (c : ℕ) (cs : Bytes) → Lacks b'/' (c ∷ cs) → c ≢ b'.' → is_clean (reveal_path (c ∷ cs)) ≡ true
unfolding is_clean has_prefix same
reveal-is_clean c cs h k = rw (reveal-segments (c ∷ cs) h) (ground arith)

-- The segments are unescaped to themselves.
plain :
    (unescape : Bytes → Bytes) (t : Bytes)
    → KeepsPlain unescape
    → Lacks b'%' t
    → map unescape (codes "s" ∷ t ∷ []) ≡ codes "s" ∷ t ∷ []
plain unescape t k h = rw (k (codes "s") (omega arith, tt), k t h) refl

module _ (k : Buckets) (d : Deps) (e : Turn) (s : Limiters k) where
  pub serve_mux-chosen :
      (r : Request) (w : World) (ss : List Bytes)
      → is_clean (d.escaped_path r) ≡ true
      → map d.unescape (segments_of (d.escaped_path r)) ≡ ss
      → slash_missing k r.method ss ≡ false
      → serve_mux k d e s r w ≡ chosen k d e s r ss (choose routes r.method ss) w
  unfolding serve_mux
  serve_mux-chosen r w ss clean split_up exact =
      subst
        (λ x.
          (if not (is_clean (d.escaped_path r)) || slash_missing k r.method x
            then (s, d.moved r w)
            else chosen k d e s r x (choose routes r.method x) w)
          ≡ chosen k d e s r ss (choose routes r.method ss) w)
        (sym split_up) (rw (clean, exact) refl)

  -- The link to a secret is served by the handler of the page.
  pub serve_mux-page :
      (t : Bytes) (r : Request) (w : World)
      → IsToken t
      → KeepsPlain d.unescape
      → d.escaped_path r ≡ page_path t
      → r.method ≡ get
      → serve_mux k d e s r w ≡ handle k d e s page (record r { token = t }) w
  unfolding choose same
  serve_mux-page [] r w v keeps path method = absurd (v.filled refl)
  serve_mux-page (c ∷ cs) r w v keeps path method =
      serve_mux-chosen r w (codes "s" ∷ (c ∷ cs) ∷ [])
        (ap is_clean path ∙ page-is_clean c cs v.slash v.stop.0)
        (ap (λ p. map d.unescape (segments_of p)) path
          ∙ ap (map d.unescape) (page-segments (c ∷ cs) v.slash)
          ∙ plain d.unescape (c ∷ cs) keeps v.percent)
        (rw method refl)
      ∙ rw method refl

  -- The request that reveals it is served by the handler of the reveal route.
  pub serve_mux-reveal :
      (t : Bytes) (r : Request) (w : World)
      → IsToken t
      → KeepsPlain d.unescape
      → d.escaped_path r ≡ reveal_path t
      → r.method ≡ post
      → serve_mux k d e s r w ≡ handle k d e s reveal (record r { token = t }) w
  unfolding choose same
  serve_mux-reveal [] r w v keeps path method = absurd (v.filled refl)
  serve_mux-reveal (c ∷ cs) r w v keeps path method =
      serve_mux-chosen r w (codes "s" ∷ (c ∷ cs) ∷ codes "reveal" ∷ [])
        (ap is_clean path ∙ reveal-is_clean c cs v.slash v.stop.0)
        (ap (λ p. map d.unescape (segments_of p)) path
          ∙ ap (map d.unescape) (reveal-segments (c ∷ cs) v.slash)
          ∙ rw (keeps (codes "reveal") (omega arith))
              (ap (λ ss. ss ++ codes "reveal" ∷ []) (plain d.unescape (c ∷ cs) keeps v.percent)))
        (rw method refl)
      ∙ rw method refl
