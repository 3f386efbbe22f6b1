-- ===== src/Server/Routes/Spec.antt =====
-- The routes of cmd/server/main.go in words of paths alone.
use disapyr_link.Common.{
  ◌≡◌, refl, ap, ◌∙◌, inl, inr, Bool, true, false, not, ◌&&◌, ◌||◌, List, [], ◌∷◌, arith, Bytes,
  same, same_iff, if◌then◌else◌, Bool-cases, sym, codes, Option, none, some, All,
}
use disapyr_link.Server.Mux.{Pattern, serves_method, choose}
use disapyr_link.Server.Routes.{
  Target, static_files, index, create, page, reveal, health, health_logs, clear, get, post, routes,
}

-- The target of a path and its token, for GET and HEAD.
abbrev pub get_target : List Bytes → Option (Target × Bytes)
get_target [] = none
get_target (a ∷ []) = if same (codes "health") a then some (health, []) else some (index, [])
get_target (a ∷ b ∷ []) =
    if same (codes "static") a
    then some (static_files, [])
    else if same (codes "s") a && not (same b [])
    then some (page, b)
    else if same (codes "health") a && same (codes "logs") b
    then some (health_logs, [])
    else some (index, [])
get_target (a ∷ b ∷ c ∷ ss) =
    if same (codes "static") a then some (static_files, []) else some (index, [])

abbrev pub post_target : List Bytes → Option (Target × Bytes)
post_target [] = none
post_target (a ∷ b ∷ c ∷ []) =
    if same (codes "s") a && (not (same b []) && same (codes "reveal") c)
    then some (reveal, b)
    else if same (codes "health") a && (same (codes "logs") b && same (codes "clear") c)
    then some (clear, [])
    else some (create, [])
post_target (a ∷ ss) = some (create, [])

abbrev pub target_of : Option (Pattern Target × Bytes) → Option (Target × Bytes)
target_of none = none
target_of (some (p, t)) = some (p.target, t)

abbrev pub is_get : Bytes → Bool
is_get m = same get m || same (codes "HEAD") m

-- Two different texts are not both the same as a third.
apart : (s t a : Bytes) → same s t ≡ false → same s a ≡ true → same t a ≡ false
apart s t a h e = ground (arith, same_iff s t, same_iff s a, same_iff t a)

get-get : same get get ≡ true
unfolding same
get-get = refl

post-get : same post get ≡ false
unfolding same
post-get = refl

module _ (a : Bytes) where
  static-s : same (codes "static") a ≡ true → same (codes "s") a ≡ false
  unfolding same
  static-s = apart (codes "static") (codes "s") a refl

  static-health : same (codes "static") a ≡ true → same (codes "health") a ≡ false
  unfolding same
  static-health = apart (codes "static") (codes "health") a refl

  s-health : same (codes "s") a ≡ true → same (codes "health") a ≡ false
  unfolding same
  s-health = apart (codes "s") (codes "health") a refl

if_same {ℓ} : {A : Type ℓ} (b : Bool) (x : A) → (if b then x else x) ≡ x
if_same true x = refl
if_same false x = refl

choose-get : (ss : List Bytes) → target_of (choose routes get ss) ≡ get_target ss
unfolding choose
choose-get [] = rw (get-get, post-get) refl
choose-get (a ∷ []) = elim (Bool-cases (same (codes "health") a)) [
  | inl e ↦ simp (get-get, post-get, if_same, e)
  | inr e ↦ simp (get-get, post-get, if_same, e)
]
choose-get (a ∷ b ∷ []) = elim (Bool-cases (same (codes "static") a)) [
  | inl e ↦ simp (get-get, post-get, if_same, e, static-s a e, static-health a e)
  | inr e ↦ elim (Bool-cases (same (codes "s") a)) [
    | inl f ↦ elim (Bool-cases (same b [])) [
      | inl g ↦ simp (get-get, post-get, if_same, e, f, s-health a f, g)
      | inr g ↦ simp (get-get, post-get, if_same, e, f, s-health a f, g)
    ]
    | inr f ↦ elim (Bool-cases (same (codes "health") a)) [
      | inl g ↦ elim (Bool-cases (same (codes "logs") b)) [
        | inl h ↦ simp (get-get, post-get, if_same, e, f, g, h)
        | inr h ↦ simp (get-get, post-get, if_same, e, f, g, h)
      ]
      | inr g ↦ simp (get-get, post-get, if_same, e, f, g)
    ]
  ]
]
choose-get (a ∷ b ∷ c ∷ ss) = elim (Bool-cases (same (codes "static") a)) [
  | inl e ↦ simp (get-get, post-get, if_same, e, static-s a e, static-health a e)
  | inr e ↦ simp (get-get, post-get, if_same, e)
]

get-post : same get post ≡ false
unfolding same
get-post = refl

post-post : same post post ≡ true
unfolding same
post-post = refl

post-head : same post (codes "HEAD") ≡ false
unfolding same
post-head = refl

choose-post : (ss : List Bytes) → target_of (choose routes post ss) ≡ post_target ss
unfolding choose
choose-post [] = simp (get-get, get-post, post-post, post-head, if_same)
choose-post (a ∷ []) = simp (get-get, get-post, post-post, post-head, if_same)
choose-post (a ∷ b ∷ []) = simp (get-get, get-post, post-post, post-head, if_same)
choose-post (a ∷ b ∷ c ∷ []) = elim (Bool-cases (same (codes "s") a)) [
  | inl e ↦ elim (Bool-cases (same b [])) [
    | inl f ↦ simp (get-get, get-post, post-post, post-head, if_same, e, s-health a e, f)
    | inr f ↦ elim (Bool-cases (same (codes "reveal") c)) [
      | inl g ↦ simp (get-get, get-post, post-post, post-head, if_same, e, s-health a e, f, g)
      | inr g ↦ simp (get-get, get-post, post-post, post-head, if_same, e, s-health a e, f, g)
    ]
  ]
  | inr e ↦ elim (Bool-cases (same (codes "health") a)) [
    | inl f ↦ elim (Bool-cases (same (codes "logs") b)) [
      | inl g ↦ elim (Bool-cases (same (codes "clear") c)) [
        | inl h ↦ simp (get-get, get-post, post-post, post-head, if_same, e, f, g, h)
        | inr h ↦ simp (get-get, get-post, post-post, post-head, if_same, e, f, g, h)
      ]
      | inr g ↦ simp (get-get, get-post, post-post, post-head, if_same, e, f, g)
    ]
    | inr f ↦ simp (get-get, get-post, post-post, post-head, if_same, e, f)
  ]
]
choose-post (a ∷ b ∷ c ∷ x ∷ ss) = simp (get-get, get-post, post-post, post-head, if_same)

-- The choice depends on the method only through the patterns that serve it.
module _ {T : Type 0} (m m' : Bytes) (ss : List Bytes) where
  choose-cong :
      (ps : List (Pattern T))
      → All (λ p. serves_method p.method m ≡ serves_method p.method m') ps
      → choose ps m ss ≡ choose ps m' ss
  unfolding choose
  choose-cong [] h = refl
  choose-cong (p ∷ ps) (h, hs) = rw (h, choose-cong ps hs)

choose-none :
    {T : Type 0} (m : Bytes) (ss : List Bytes) (ps : List (Pattern T))
    → All (λ p. serves_method p.method m ≡ false) ps
    → choose ps m ss ≡ none
unfolding choose
choose-none m ss [] h = refl
choose-none m ss (p ∷ ps) (h, hs) = rw (h, choose-none m ss ps hs)

as_get : All (λ p. serves_method p.method (codes "HEAD") ≡ serves_method p.method get) routes
unfolding same
as_get = (refl, (refl, (refl, (refl, (refl, (refl, (refl, (refl, tt))))))))

unserved :
    (m : Bytes)
    → same get m ≡ false
    → same (codes "HEAD") m ≡ false
    → same post m ≡ false
    → All (λ p. serves_method p.method m ≡ false) routes
unserved m e f g =
    let head_m : same m (codes "HEAD") ≡ false =
      ground (arith, same_iff m (codes "HEAD"), same_iff (codes "HEAD") m) in
    let by_get : serves_method get m ≡ false = rw (e, get-get, head_m) refl in
    let by_post : serves_method post m ≡ false = rw (g, post-get) refl in
    (by_get, (by_get, (by_post, (by_get, (by_post, (by_get, (by_get, (by_post, tt))))))))

-- The mux finds what is written here in words of the path: the route for a method and the segments of
-- a path, with the token in it, is that of `get_target` for GET and HEAD and of `post_target` for POST,
-- and there is none for any other method.
pub choose-target :
    (m : Bytes) (ss : List Bytes)
    → target_of (choose routes m ss)
      ≡ (if is_get m then get_target ss else if same post m then post_target ss else none)
choose-target m ss = elim (Bool-cases (same get m)) [
  | inl e ↦
      rw e (ap (λ k. target_of (choose routes k ss)) (sym ((same_iff get m).0 e)) ∙ choose-get ss)
  | inr e ↦ elim (Bool-cases (same (codes "HEAD") m)) [
    | inl f ↦
        rw (e, f)
          (ap (λ k. target_of (choose routes k ss)) (sym ((same_iff (codes "HEAD") m).0 f))
            ∙ ap target_of (choose-cong (codes "HEAD") get ss routes as_get)
            ∙ choose-get ss)
    | inr f ↦ elim (Bool-cases (same post m)) [
      | inl g ↦
          rw (e, f, g)
            (ap (λ k. target_of (choose routes k ss)) (sym ((same_iff post m).0 g))
              ∙ choose-post ss)
      | inr g ↦ rw (e, f, g) (ap target_of (choose-none m ss routes (unserved m e f g)))
    ]
  ]
]
