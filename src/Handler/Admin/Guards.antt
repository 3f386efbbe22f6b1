-- ===== src/Handler/Admin/Guards.antt =====
-- Who gets past the guards of internal/handler/admin.go.
use disapyr_link.Common.{
  ℕ, ◌+◌, ◌*◌, ◌<◌, ◌≡◌, refl, ◌≢◌, ◌⊎◌, inl, inr, true, false, ◌||◌, [], arith, Bytes, same,
  same_iff, Bool-cases, codes, Option, none, some,
}
use disapyr_link.Strings.{Unicode, equal_fold}
use disapyr_link.Http.{Request, World, Handler, get_header, status, write, write_header, http_error}
use disapyr_link.Handler.Admin.{admitted, basic_auth, UrlHost, check, same_origin, uptime_of}

-- The two texts have the same hash only if they are equal.
abbrev pub HasNoCollision : (Bytes → Bytes) → Bytes → Bytes → Type 0
HasNoCollision sha s t = sha s ≡ sha t → s ≡ t

admitted-true :
    (sha : Bytes → Bytes) (user pass u p : Bytes)
    → HasNoCollision sha u user
    → HasNoCollision sha p pass
    → admitted sha user pass (some (u, p)) ≡ true
    → (u ≡ user) × (p ≡ pass)
admitted-true sha user pass u p nu np h =
    let eu : u ≡ user = nu ((same_iff (sha u) (sha user)).0 (ground arith)) in
    let ep : p ≡ pass = np ((same_iff (sha p) (sha pass)).0 (ground arith)) in (eu, ep)

not-same-nil : (s t : Bytes) → (same s [] || same t []) ≡ false → (s ≢ []) × (t ≢ [])
not-same-nil s t h = (λ e. ground (arith, same_iff s []), λ e. ground (arith, same_iff t []))

-- A request with credentials reaches an administration page only if a user and a password are
-- configured and the credentials are these, provided SHA-256 does not collide on them; every other
-- such request is answered with the status 403 or 401, and the tables are not touched.
pub basic_auth-cases :
    (sha : Bytes → Bytes) (parse : Request → Option (Bytes × Bytes)) (user pass u p : Bytes)
    (next : Handler) (r : Request) (w : World)
    → parse r ≡ some (u, p)
    → HasNoCollision sha u user
    → HasNoCollision sha p pass
    → w.out.sent ≡ none
    → ((basic_auth sha parse user pass next r w ≡ next r w)
        × (user ≢ [])
        × (pass ≢ [])
        × (u ≡ user)
        × (p ≡ pass))
      ⊎ (((status (basic_auth sha parse user pass next r w).0 ≡ 403)
            ⊎ (status (basic_auth sha parse user pass next r w).0 ≡ 401))
          × ((basic_auth sha parse user pass next r w).0.db ≡ w.db))
unfolding basic_auth write write_header http_error
basic_auth-cases sha parse user pass u p next r w hp nu np fresh =
    elim (Bool-cases (same user [] || same pass [])) [
      | inl e ↦ inr (rw (e, fresh) (inl refl, refl))
      | inr e ↦ elim (Bool-cases (admitted sha user pass (some (u, p)))) [
        | inl a ↦
            let (hu, hq) = not-same-nil user pass e in
            let (eu, ep) = admitted-true sha user pass u p nu np a in
            inl (rw (e, hp, a) (refl, hu, hq, eu, ep))
        | inr a ↦ inr (rw (e, hp, a, fresh) (inr refl, refl))
      ]
    ]

-- A request from a page of another site is refused: if it names an origin, or no origin but a
-- referrer, whose URL has neither with its port nor without the host of the request, or is no URL,
-- then the guard of the clearing of logs does not let it pass.
pub same_origin-foreign :
    (u : Unicode) (parse : Bytes → Option UrlHost) (r : Request) (source : Bytes)
    → source ≢ []
    → (get_header (codes "Origin") r.headers ≡ source)
      ⊎ ((get_header (codes "Origin") r.headers ≡ [])
          × (get_header (codes "Referer") r.headers ≡ source))
    → ((url : UrlHost)
        → parse source ≡ some url
        → (equal_fold u url.host r.host ≡ false) × (equal_fold u url.hostname r.host ≡ false))
    → same_origin u parse r ≡ false
unfolding same_origin
same_origin-foreign u parse r source present named foreign =
    let checked : check u r.host (parse source) ≡ false = go (parse source) refl in
    let filled : same source [] ≡ false = ground (arith, same_iff source []) in
    elim named [ inl e ↦ rw (e, filled, checked) | inr (e, f) ↦ rw (e, f, filled, checked) ]
  where
    go : (q : Option UrlHost) → parse source ≡ q → check u r.host q ≡ false
    go none h = refl
    go (some url) h = let (a, b) = foreign url h in rw (a, b)

-- The uptime that is shown adds up to the whole seconds, with each part below the next unit.
pub uptime_of-adds_up :
    (s : ℕ)
    → ((uptime_of s).days * 86400
          + (uptime_of s).hours * 3600
          + (uptime_of s).minutes * 60
          + (uptime_of s).seconds
        ≡ s)
      × ((uptime_of s).hours < 24)
      × ((uptime_of s).minutes < 60)
      × ((uptime_of s).seconds < 60)
unfolding uptime_of
uptime_of-adds_up s = (omega arith, omega arith, omega arith, omega arith)
