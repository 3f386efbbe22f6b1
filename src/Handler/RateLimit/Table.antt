-- ===== src/Handler/RateLimit/Table.antt =====
-- The table of limiters of internal/handler/ratelimit.go.
use disapyr_link.Common.{
  ℤ, ◌≤ℤ◌, ◌+ℤ◌, ◌≡◌, refl, inl, inr, Bool, true, List, [], ◌∷◌, arith, Bytes, same, same_iff, keep,
  if◌then◌else◌, Bool-cases, some, All, All-imp, -ℤ_parts, +ℤ_parts,
}
use disapyr_link.Handler.RateLimit.{
  Buckets, IpLimiter, RateLimiter, find, insert, cleanup, ten_minutes,
}

module _ (k : Buckets) where
  pub find-insert :
      (i j : Bytes) (e : IpLimiter k) (m : List (Bytes × IpLimiter k))
      → find k j (insert k i e m) ≡ (if same i j then some e else find k j m)
  unfolding find insert
  find-insert i j e [] = refl
  find-insert i j e ((l, f) ∷ m) =
      ground (arith, same_iff i j, same_iff l i, same_iff l j, find-insert i j e m)

  find-keep :
      (p : Bytes × IpLimiter k → Bool) (ip : Bytes) (m : List (Bytes × IpLimiter k))
      (e : IpLimiter k)
      → find k ip m ≡ some e
      → ((i : Bytes) → p (i, e) ≡ true)
      → find k ip (keep p m) ≡ some e
  unfolding find
  find-keep p ip [] e h passes = h
  find-keep p ip ((i, f) ∷ m) e h passes = elim (Bool-cases (same i ip)) [
    | inl e' ↦ let found : f ≡ e = ground arith in rw (found, passes i) (rw e')
    | inr e' ↦
        let later : find k ip (keep p m) ≡ some e = find-keep p ip m e (rw e' at h) passes in
        ground arith
  ]

  -- A cleanup keeps the limiter of an address that was seen in the last ten minutes.
  pub cleanup-recent :
      (now : ℤ) (rl : RateLimiter k) (ip : Bytes) (e : IpLimiter k)
      → find k ip rl.limiters ≡ some e
      → now ≤ℤ e.last_seen +ℤ ten_minutes
      → find k ip (cleanup k now rl).limiters ≡ some e
  unfolding cleanup
  cleanup-recent now rl ip e h recent =
      find-keep _ ip rl.limiters e h
        (λ i. ground (arith, -ℤ_parts now ten_minutes, +ℤ_parts e.last_seen ten_minutes))

  keep-All :
      (p : Bytes × IpLimiter k → Bool) (m : List (Bytes × IpLimiter k))
      → All (λ e. p e ≡ true) (keep p m)
  keep-All p [] = tt
  keep-All p (e ∷ m) = elim (Bool-cases (p e)) [
    | inl h ↦ rw h (h, keep-All p m)
    | inr h ↦ rw h (keep-All p m)
  ]

  -- After a cleanup every limiter of the table was used in the last ten minutes.
  pub cleanup-All :
      (now : ℤ) (rl : RateLimiter k)
      → All (λ m. now ≤ℤ m.1.last_seen +ℤ ten_minutes) (cleanup k now rl).limiters
  unfolding cleanup
  cleanup-All now rl =
      All-imp (keep _ rl.limiters)
        (λ m h. ground (arith, -ℤ_parts now ten_minutes, +ℤ_parts m.1.last_seen ten_minutes))
        (keep-All _ rl.limiters)
