-- ===== src/Config/Redact/Faults.antt =====
-- `kvDSNRedact` of internal/config/config.go on texts outside the common form.
use disapyr_link.Common.{
  ℕ, zero, suc, ◌≤◌, ◌≡◌, refl, ap, ◌∙◌, ◌≢◌, Bool, true, false, [], ◌∷◌, ◌++◌, append-nil, arith,
  Bytes, same, length, sym, codes, length-append, All, All-imp,
}
use mathlib.Core.List.{cons-ne-nil}
use disapyr_link.Config.Redact.{
  span, space, equals, quote, backslash, is_space, in_key, overrun, passed, scan_quoted, done,
  crashed, is_sensitive, written, panics, quoted_value, value, redact, kv_dsn_redact, after_value,
}
use disapyr_link.Config.Redact.Values.{span-append, scan_quoted-step, tail-ne-nil}
use disapyr_link.Config.Redact.Pairs.{IsKeyByte, redact-key, redact-nil, redact-step}

abbrev pub IsBodyByte : ℕ → Type 0
IsBodyByte c = (c ≢ quote) × (c ≢ backslash)

scan_quoted-overrun :
    (body : Bytes) → All IsBodyByte body → scan_quoted (body ++ backslash ∷ []) ≡ overrun
scan_quoted-overrun [] h = unfold scan_quoted in refl
scan_quoted-overrun (c ∷ body) ((h, k), hs) =
    scan_quoted-step c (body ++ backslash ∷ []) (tail-ne-nil body [] backslash) h k
    ∙ ap (passed (c ∷ [])) (scan_quoted-overrun body hs)

value-overrun :
    (body : Bytes) → All IsBodyByte body → value false (quote ∷ (body ++ backslash ∷ [])) ≡ panics
unfolding value
value-overrun body h = ap (quoted_value false) (scan_quoted-overrun body h)

redact-crashed :
    (fuel : ℕ) (key body : Bytes)
    → All IsKeyByte key
    → is_sensitive key ≡ false
    → All IsBodyByte body
    → 1 ≤ fuel
    → redact fuel (key ++ equals ∷ quote ∷ (body ++ backslash ∷ [])) [] ≡ crashed
redact-crashed zero key body hk open_key h k = absurd (omega arith)
redact-crashed (suc fuel) key body hk open_key h k =
    redact-key fuel [] key (quote ∷ (body ++ backslash ∷ [])) [] tt hk
    ∙ ap (λ b. after_value (redact fuel) key (value b (quote ∷ (body ++ backslash ∷ [])))) open_key
    ∙ ap (after_value (redact fuel) key) (value-overrun body h)

-- A connection string of one pair whose value opens with a quote, has no further quote, and has a backslash
-- only as its last byte makes the function panic, whatever the key is that is not "password" or "passfile"
-- and has neither a space nor an equals sign.
pub kv_dsn_redact-crashed :
    (key body : Bytes)
    → All IsKeyByte key
    → is_sensitive key ≡ false
    → All IsBodyByte body
    → kv_dsn_redact (key ++ equals ∷ quote ∷ (body ++ backslash ∷ [])) ≡ crashed
unfolding kv_dsn_redact
kv_dsn_redact-crashed key body hk open_key h =
    redact-crashed _ key body hk open_key h
      (omega (arith, length-append {0} key (equals ∷ quote ∷ (body ++ backslash ∷ []))))

span-whole : (p : ℕ → Bool) (u : Bytes) → All (λ c. p c ≡ true) u → span p u ≡ (u, [])
span-whole p u h = ap (span p) (sym (append-nil u)) ∙ span-append p u [] h tt

redact-last :
    (fuel : ℕ) (v out : Bytes)
    → All IsKeyByte v
    → redact (suc fuel) (space ∷ v) out ≡ done (out ++ (space ∷ v))
redact-last fuel [] out h =
    redact-step fuel (space ∷ []) out (cons-ne-nil space [])
    ∙ (unfold span in redact-nil fuel (out ++ (space ∷ [])))
redact-last fuel (c ∷ v) out ((h, k), hs) =
    let spaces : span is_space (space ∷ c ∷ v) ≡ (space ∷ [], c ∷ v) =
      span-append is_space (space ∷ []) (c ∷ v) (refl, tt) (ground arith) in
    let key : span in_key (c ∷ v) ≡ (c ∷ v, []) =
      span-whole in_key (c ∷ v) (All-imp (c ∷ v) (λ d q. ground arith) ((h, k), hs)) in
    redact-step fuel (space ∷ c ∷ v) out (cons-ne-nil space (c ∷ v))
    ∙ rw (spaces, key) (redact-nil fuel (out ++ (space ∷ c ∷ v)))

redact-password :
    (fuel : ℕ) (r : Bytes)
    → redact (suc fuel) (codes "password" ++ space ∷ r) []
      ≡ redact fuel (space ∷ r) (codes "password")
unfolding redact span
redact-password fuel r = refl

value-space : (v : Bytes) → value false (space ∷ v) ≡ written [] (space ∷ v)
unfolding value span
value-space v = refl

redact-spaced :
    (fuel : ℕ) (v : Bytes)
    → All IsKeyByte v
    → redact (suc (suc (suc fuel))) (codes "password = " ++ v) [] ≡ done (codes "password = " ++ v)
unfolding same
redact-spaced fuel v h =
    redact-password (suc (suc fuel)) (equals ∷ space ∷ v)
    ∙ redact-key (suc fuel) (space ∷ []) [] (space ∷ v) (codes "password") (refl, tt) tt
    ∙ ap (after_value (redact (suc fuel)) (codes "password ")) (value-space v)
    ∙ redact-last fuel v (codes "password =") h

-- With one space on each side of the equals sign, which the key=value form allows, a password that has
-- neither spaces nor equals signs is not hidden.
pub kv_dsn_redact-spaced :
    (v : Bytes)
    → All IsKeyByte v
    → kv_dsn_redact (codes "password = " ++ v) ≡ done (codes "password = " ++ v)
unfolding kv_dsn_redact
kv_dsn_redact-spaced v h =
    redact-spaced (suc (suc (suc (suc (suc (suc (suc (suc (length v))))))))) v h
