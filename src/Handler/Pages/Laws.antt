-- ===== src/Handler/Pages/Laws.antt =====
-- The pages of internal/handler/handler.go after a start that succeeded.
use disapyr_link.Common.{ℤ, ◌≡◌, refl, ◌∙◌, [], ◌∷◌, Bytes, same, sym, codes, some}
use disapyr_link.Model.{Result, ok, err, ok-injective}
use disapyr_link.Http.{Request, World, returned}
use disapyr_link.Handler.Pages.{
  Template, Templates, find_template, parse_pages, parse_templates, rendered, render, index_page,
  retrieve_page, index_data, serve_index, serve_page,
}

templates_of :
    (parse : Bytes → Result Template) (ts : Templates)
    → parse_templates parse ≡ ok ts
    → (a b : Template) × (parse index_page ≡ ok a)
      × (parse retrieve_page ≡ ok b)
      × (ts ≡ (index_page, a) ∷ (retrieve_page, b) ∷ [])
unfolding parse_templates parse_pages
templates_of parse ts h = go (parse index_page) (parse retrieve_page) refl refl
  where
    go :
        (p q : Result Template)
        → parse index_page ≡ p
        → parse retrieve_page ≡ q
        → (a b : Template) × (parse index_page ≡ ok a)
          × (parse retrieve_page ≡ ok b)
          × (ts ≡ (index_page, a) ∷ (retrieve_page, b) ∷ [])
    go (ok a) (ok b) hp hq = (a, b, hp, hq, sym (ok-injective (sym (rw (hp, hq) refl) ∙ h)))
    go (ok a) (err e) hp hq = absurd (let k = rw (hp, hq) at h in cc)
    go (err e) q hp hq = absurd (let k = rw hp at h in cc)

-- If all templates were parsed at the start, no page is missing later: the page for a new secret and
-- the page of a token are written by the templates that were parsed under their names.
pub serve_page-parsed :
    (parse : Bytes → Result Template) (ts : Templates) (max_bytes : ℤ) (r r' : Request) (w : World)
    → parse_templates parse ≡ ok ts
    → r.path ≡ codes "/"
    → (a b : Template) × (parse index_page ≡ ok a)
      × (parse retrieve_page ≡ ok b)
      × (serve_index ts max_bytes r w
          ≡ (rendered index_page (some a) (index_data max_bytes) w, returned))
      × (serve_page ts r' w
          ≡ (rendered retrieve_page (some b) ((codes "Token", r'.token) ∷ []) w, returned))
unfolding serve_index serve_page render find_template same
serve_page-parsed parse ts max_bytes r r' w h root =
    let (a, b, ha, hb, e) = templates_of parse ts h in (a, b, ha, hb, rw (e, root) refl, rw e refl)
