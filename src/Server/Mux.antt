-- ===== src/Server/Mux.antt =====
-- The choice of a handler by net/http's ServeMux, as far as cmd/server/main.go uses it: patterns with a
-- method, whose path is literals and wildcards, and may stand for all below it. That a request with the
-- method CONNECT is not sent to the clean path is left out.
use disapyr_link.Common.{
  ◌+◌, Bool, true, false, not, ◌&&◌, ◌||◌, List, [], ◌∷◌, ◌==◌, Bytes, same, length, if◌then◌else◌,
  codes, Option, none, some, has_prefix,
}
use disapyr_link.Strings.{split}

pub data Segment : Type 0 where
  literal : Bytes → Segment
  wildcard : Segment

pub record Pattern {ℓ} (T : Type ℓ) : Type ℓ where
  pub method : Bytes
  pub segments : List Segment
  -- The pattern ends in a slash.
  pub subtree : Bool
  pub target : T

-- A pattern for GET serves HEAD too.
abbrev pub serves_method : Bytes → Bytes → Bool
serves_method p m = same p m || (same p (codes "GET") && same m (codes "HEAD"))

abbrev with_token : Bytes → Option Bytes → Option Bytes
with_token s none = none
with_token s (some t) = some s

-- The match of a path, with what its wildcard stands for, if it has one.
unfoldable pub fits : List Segment → Bool → List Bytes → Option Bytes
fits [] subtree [] = if subtree then none else some []
fits [] subtree (s ∷ ss) = if subtree then some [] else none
fits (p ∷ ps) subtree [] = none
fits (literal l ∷ ps) subtree (s ∷ ss) = if same l s then fits ps subtree ss else none
fits (wildcard ∷ ps) subtree (s ∷ ss) =
    if same s [] then none else with_token s (fits ps subtree ss)

-- Of two patterns that match one path, the first is the more specific one.
abbrev pub beats : List Segment → Bool → List Segment → Bool
beats [] b [] = not b
beats [] b (q ∷ qs) = false
beats (p ∷ ps) b [] = true
beats (literal l ∷ ps) b (literal m ∷ qs) = beats ps b qs
beats (literal l ∷ ps) b (wildcard ∷ qs) = true
beats (wildcard ∷ ps) b (literal m ∷ qs) = false
beats (wildcard ∷ ps) b (wildcard ∷ qs) = beats ps b qs

module _ {ℓ} {T : Type ℓ} where
  abbrev pub pick : Pattern T → Bytes → Option (Pattern T × Bytes) → Option (Pattern T × Bytes)
  pick p t none = some (p, t)
  pick p t (some (q, u)) =
      if beats p.segments p.subtree q.segments then some (p, t) else some (q, u)

  abbrev pub pick_if :
      Bool → Pattern T → Option Bytes → Option (Pattern T × Bytes) → Option (Pattern T × Bytes)
  pick_if false p t rest = rest
  pick_if true p none rest = rest
  pick_if true p (some t) rest = pick p t rest

  -- The most specific pattern for a method and a path, with its wildcard's value.
  unfoldable pub choose : List (Pattern T) → Bytes → List Bytes → Option (Pattern T × Bytes)
  unfolding fits
  choose [] m ss = none
  choose (p ∷ ps) m ss =
      pick_if (serves_method p.method m) p (fits p.segments p.subtree ss) (choose ps m ss)

-- The segments of a path behind its first slash.
abbrev pub behind_slash : List Bytes → List Bytes
behind_slash [] = []
behind_slash (_ ∷ ss) = ss

unfoldable pub segments_of : Bytes → List Bytes
unfolding split
segments_of path = behind_slash (split b'/' path)

-- `cleanPath` leaves the path as it is.
abbrev pub clean_segments : List Bytes → Bool
clean_segments [] = false
clean_segments (s ∷ []) = not (same s (codes ".") || same s (codes ".."))
clean_segments (s ∷ t ∷ ss) =
    not (same s [] || (same s (codes ".") || same s (codes ".."))) && clean_segments (t ∷ ss)

unfoldable pub is_clean : Bytes → Bool
unfolding segments_of has_prefix
is_clean path = has_prefix (codes "/") path && clean_segments (segments_of path)

abbrev pub ends_in_slash : List Bytes → Bool
ends_in_slash [] = false
ends_in_slash (s ∷ []) = same s []
ends_in_slash (s ∷ t ∷ ss) = ends_in_slash (t ∷ ss)

-- The pattern that was found matches the path with nothing left for its subtree.
abbrev pub is_exact {ℓ} : {T : Type ℓ} → Option (Pattern T × Bytes) → List Bytes → Bool
is_exact none ss = false
is_exact (some (p, t)) ss =
    if p.subtree then ends_in_slash ss && length p.segments + 1 == length ss else true
