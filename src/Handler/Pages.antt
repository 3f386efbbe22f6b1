-- ===== src/Handler/Pages.antt =====
-- The pages of internal/handler/handler.go: `parseTemplates`, `render`, `ServeIndex` and `ServePage`. A
-- template of html/template is an argument: what it writes for its data, and its error.
pub mod Laws
use disapyr_link.Common.{
  ◌*◌, ℤ, quot, not, List, [], ◌∷◌, Bytes, same, if◌then◌else◌, codes, Option, none, some,
}
use disapyr_link.Model.{Error, error_text, Result, ok, err}
use disapyr_link.Encoding.Decimal.{itoa}
use disapyr_link.Http.{set_header, write, http_error, World, error, log, respond, Handler, returned}

abbrev pub Data : Type 0
Data = List (Bytes × Bytes)

abbrev pub Template : Type 0
Template = Data → Bytes × Option Error

abbrev pub Templates : Type 0
Templates = List (Bytes × Template)

unfoldable pub find_template {ℓ} : {A : Type ℓ} → Bytes → List (Bytes × A) → Option A
find_template name [] = none
find_template name ((n, t) ∷ ts) = if same n name then some t else find_template name ts

abbrev pub add_page {ℓ} :
    {A : Type ℓ} → Bytes → Result A → Result (List (Bytes × A)) → Result (List (Bytes × A))
add_page page (err e) rest = err e
add_page page (ok t) (err e) = err e
add_page page (ok t) (ok ts) = ok ((page, t) ∷ ts)

-- `template.ParseFS` of the base layout and the page, for each page; the first error ends it.
unfoldable pub parse_pages {ℓ} :
    {A : Type ℓ} → (Bytes → Result A) → List Bytes → Result (List (Bytes × A))
parse_pages parse [] = ok []
parse_pages parse (page ∷ pages) = add_page page (parse page) (parse_pages parse pages)

abbrev pub index_page : Bytes
index_page = codes "index"

abbrev pub retrieve_page : Bytes
retrieve_page = codes "retrieve"

-- parseTemplates
unfoldable pub parse_templates : (Bytes → Result Template) → Result Templates
unfolding parse_pages
parse_templates parse = parse_pages parse (index_page ∷ retrieve_page ∷ [])

-- What a Handler keeps besides its service and its logger.
pub record PageHandler : Type 0 where
  pub max_bytes : ℤ
  pub templates : Templates

abbrev pub with_templates : ℤ → Result Templates → Result PageHandler
with_templates max_bytes (err e) = err e
with_templates max_bytes (ok ts) = ok (record { max_bytes = max_bytes; templates = ts })

-- New
unfoldable pub new_handler : ℤ → (Bytes → Result Template) → Result PageHandler
unfolding parse_templates
new_handler max_bytes parse = with_templates max_bytes (parse_templates parse)

abbrev log_render : Bytes → Option Error → World → World
log_render name none w = w
log_render name (some e) w =
    log error (codes "render template") ((codes "name", name) ∷ (codes "err", error_text e) ∷ []) w

abbrev pub rendered : Bytes → Option Template → Data → World → World
rendered name none input w =
    respond (http_error (codes "internal error") 500)
      (log error (codes "template not found") ((codes "name", name) ∷ []) w)
rendered name (some t) input w =
    let (text, failure) = t input in
    log_render name failure (
      respond
        (λ out. write text (record out {
          headers =
              set_header (codes "Content-Type") (codes "text/html; charset=utf-8") out.headers;
        }))
        w)

-- render
unfoldable pub render : Templates → Bytes → Data → World → World
unfolding find_template
render ts name input w = rendered name (find_template name ts) input w

-- The data of the page for a new secret.
unfoldable pub index_data : ℤ → Data
unfolding itoa quot
index_data max_bytes =
    (codes "MaxFileBytes", itoa max_bytes)
    ∷ (codes "MaxFileSizeMB", itoa (quot max_bytes (1024 * 1024)))
    ∷ []

-- ServeIndex
unfoldable pub serve_index : Templates → ℤ → Handler
unfolding render index_data http_error
serve_index ts max_bytes r w =
    if not (same r.path (codes "/"))
    then (respond (http_error (codes "404 page not found") 404) w, returned)
    else (render ts index_page (index_data max_bytes) w, returned)

-- ServePage
unfoldable pub serve_page : Templates → Handler
unfolding render
serve_page ts r w = (render ts retrieve_page ((codes "Token", r.token) ∷ []) w, returned)
