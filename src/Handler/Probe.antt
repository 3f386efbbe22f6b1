-- ===== src/Handler/Probe.antt =====
-- `isProbeRequest` of internal/handler/handler.go.
pub mod Laws
pub mod Links
mod Tests
use disapyr_link.Common.{
  Bool, true, ◌||◌, List, [], ◌∷◌, Bytes, any, if◌then◌else◌, codes, has_prefix, contains,
}
use disapyr_link.Strings.{Unicode, to_lower, equal_fold}

-- The patterns, in the order of the source.
abbrev pub probe_patterns : List Bytes
probe_patterns =
    codes "/robots.txt"
    ∷ codes "/sitemap.xml"
    ∷ codes "/favicon.ico"
    ∷ codes "/.well-known/"
    ∷ codes "/wp-json/"
    ∷ codes "/wp-admin"
    ∷ codes "/wp-content"
    ∷ codes "/.env"
    ∷ codes "/.env.local"
    ∷ codes "/web.config"
    ∷ codes "/config.php"
    ∷ codes "/settings.php"
    ∷ codes "/.htaccess"
    ∷ codes "/xmlrpc.php"
    ∷ codes "/.github"
    ∷ codes "/.gitlab"
    ∷ codes "/.hg"
    ∷ codes "/.svn"
    ∷ codes "/app.py"
    ∷ codes "/main.py"
    ∷ codes "/index.php"
    ∷ codes "/config.json"
    ∷ codes "/version.txt"
    ∷ codes "/api/"
    ∷ codes "/admin"
    ∷ codes "/backup"
    ∷ codes "/uploads"
    ∷ codes "/images"
    ∷ codes "/assets"
    ∷ codes "/__pycache__"
    ∷ codes "/node_modules"
    ∷ []

abbrev pub git_prefix : Bytes
git_prefix = codes "/.git"

abbrev pub git_inside : Bytes
git_inside = codes "/.git/"

-- One round of the loop over the patterns.
abbrev pub matches : Unicode → Bytes → Bytes → Bool
matches u path pattern = equal_fold u path pattern || has_prefix pattern path

unfoldable pub is_probe_request : Unicode → Bytes → Bool
unfolding to_lower equal_fold has_prefix contains
is_probe_request u path =
    let lower_path = to_lower u path in
    if has_prefix git_prefix lower_path || contains git_inside lower_path
    then true
    else any (matches u lower_path) probe_patterns
