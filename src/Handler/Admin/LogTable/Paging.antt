-- ===== src/Handler/Admin/LogTable/Paging.antt =====
-- The pages of the log browser of internal/handler/admin.go.
use disapyr_link.Common.{
  ℕ, zero, suc, ◌+◌, ◌*◌, ◌^◌, ◌≤◌, ◌<◌, ℤ, pos, ◌+ℤ◌, ◌*ℤ◌, wrap64, ◌≡◌, refl, ap, ◌∙◌, false,
  List, ◌++◌, arith, Bytes, length, sym, take, drop, take-add, take-all,
}
use disapyr_link.Repository.{Call, completed, LogRow}
use disapyr_link.Handler.Admin.LogTable.{page_size, has_more, matching, query_logs}

has_more-false : (p total : ℕ) → p < 2 ^ 57 → has_more p total ≡ false → total ≤ (p + 1) * page_size
unfolding has_more wrap64 ◌*ℤ◌ ◌+ℤ◌
has_more-false p total small h = ground arith

module _ (ago : ℤ → Bytes → ℤ) (order : Call → List LogRow → List LogRow) (arrived : Call → ℕ)
    (c c' : ℕ → Call) (logs : List LogRow) (level window : Bytes) where
  -- What a reader sees who turns the pages from the first to page `p`, each with its own statements.
  pub pages_up_to : ℕ → List LogRow
  pages_up_to zero = (query_logs ago order arrived (c 0) (c' 0) logs level window zero).0
  pages_up_to (suc p) =
      pages_up_to p
      ++ (query_logs ago order arrived (c (suc p)) (c' (suc p)) logs level window (suc p)).0

  -- The records that match at a time.
  abbrev pub matching_at : ℤ → List LogRow
  matching_at now = matching ago order arrived now level window logs

  query_logs-rows :
      (p : ℕ)
      → p < 2 ^ 57
      → (c p).verdict ≡ completed
      → (c' p).verdict ≡ completed
      → query_logs ago order arrived (c p) (c' p) logs level window p ≡ (
        take page_size (drop (p * page_size) (order (c' p) (matching_at (c' p).now))),
        length (matching_at (c p).now),
      )
  unfolding query_logs wrap64 ◌*ℤ◌
  query_logs-rows p small done done' =
      let offset : wrap64 (pos p *ℤ pos page_size) ≡ pos (p * page_size) = ground arith in
      rw (done, done', offset) refl

  module _ (now : ℤ) (sorted : List LogRow) (done : (q : ℕ) → (c q).verdict ≡ completed)
      (done' : (q : ℕ) → (c' q).verdict ≡ completed) (clock : (q : ℕ) → (c q).now ≡ now)
      (clock' : (q : ℕ) → (c' q).now ≡ now)
      (alike : (q : ℕ) → order (c' q) (matching_at now) ≡ sorted) where
    page-sorted :
        (p : ℕ)
        → p < 2 ^ 57
        → query_logs ago order arrived (c p) (c' p) logs level window p
          ≡ (take page_size (drop (p * page_size) sorted), length (matching_at now))
    page-sorted p small = query_logs-rows p small (done p) (done' p) ∙ λ i. (
      take page_size
          (drop (p * page_size) ((ap (λ t. order (c' p) (matching_at t)) (clock' p) ∙ alike p) i)),
      length (matching_at (clock p i)),
    )

    pages_up_to-take : (p : ℕ) → p < 2 ^ 57 → pages_up_to p ≡ take ((p + 1) * page_size) sorted
    unfolding pages_up_to
    pages_up_to-take zero small = ap (λ q. q.0) (page-sorted zero small)
    pages_up_to-take (suc p) small =
        let total : (p + 1) * page_size + page_size ≡ (suc p + 1) * page_size = omega arith in
        let index : suc p * page_size ≡ (p + 1) * page_size = omega arith in
        (λ i. pages_up_to-take p (omega arith) i ++ (page-sorted (suc p) small i).0)
        ∙ ap (λ n. take ((p + 1) * page_size) sorted ++ take page_size (drop n sorted)) index
        ∙ take-add ((p + 1) * page_size) page_size sorted
        ∙ ap (λ n. take n sorted) total

    -- Who turns the pages until the browser says that there are no more has seen the matching records in
    -- their order, each once: for a page below 2 ^ 57, if both statements of every page are carried out, at
    -- one time and over one table, if the second ones all put the matching records into the same order, as
    -- they do when no two have the same time, and if this order has as many records as match.
    pub pages_up_to-all :
        (p : ℕ)
        → p < 2 ^ 57
        → length sorted ≡ length (matching_at now)
        → has_more p (query_logs ago order arrived (c p) (c' p) logs level window p).1 ≡ false
        → pages_up_to p ≡ sorted
    pages_up_to-all p small complete last =
        let counted = ap (λ q. q.1) (page-sorted p small) in
        let bound =
          has_more-false p (length (matching_at now)) small
            (sym (ap (has_more p) counted) ∙ last) in
        pages_up_to-take p small
        ∙ take-all ((p + 1) * page_size) sorted (omega (arith, complete, bound))
