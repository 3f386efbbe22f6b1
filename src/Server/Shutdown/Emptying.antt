-- ===== src/Server/Shutdown/Emptying.antt =====
-- How the writer of internal/logger/db_handler.go empties its queue while main of cmd/server/main.go waits.
use disapyr_link.Common.{
  ◌≡◌, refl, ap, ◌∙◌, Bool, true, false, List, [], ◌∷◌, ◌++◌, append-nil, append_assoc,
  if◌then◌else◌, sym, Option, none, some,
}
use disapyr_link.Logger.Queue.{DbRecord}
use disapyr_link.Server.Shutdown.{Process, inserted, receives, inserts, Reach, here, next}

pub Reach-trans : {p q r : Process} → Reach p q → Reach q r → Reach p r
Reach-trans a here = a
Reach-trans a (next b st) = next (Reach-trans a b) st

abbrev pub held : Option DbRecord → List DbRecord
held none = []
held (some r) = r ∷ []

-- What has been sent to the database when the writer has inserted some more records: with an open pool,
-- these behind those that were sent before.
abbrev pub sent_then : Bool → List DbRecord → List DbRecord → List DbRecord
sent_then true sent rest = sent ++ rest
sent_then false sent rest = sent

-- The writer can empty the queue: it receives all that waits, in its order, and inserts it, and main stands
-- where it stood.
abbrev pub Emptied : List DbRecord → Process → Type 0
Emptied more p =
    (q : Process) × Reach p q
    × (q.exit ≡ none)
    × (q.stage ≡ p.stage)
    × (q.timed_out ≡ p.timed_out)
    × (q.queue.buffer ≡ [])
    × (q.in_hand ≡ none)
    × (q.queue.inserted ≡ p.queue.inserted ++ p.queue.buffer)
    × (q.sent ≡ sent_then p.pool_open p.sent more)

sent_then-append :
    (open_now : Bool) (sent more rest : List DbRecord)
    → sent_then open_now (sent_then open_now sent more) rest
      ≡ sent_then open_now sent (more ++ rest)
sent_then-append true sent more rest = append_assoc sent more rest
sent_then-append false sent more rest = refl

sent_then-nil : (open_now : Bool) (sent : List DbRecord) → sent ≡ sent_then open_now sent []
sent_then-nil true sent = sym (append-nil sent)
sent_then-nil false sent = refl

inserted-sent :
    (open_now : Bool) (sent : List DbRecord) (r : DbRecord)
    → (if open_now then sent ++ r ∷ [] else sent) ≡ sent_then open_now sent (r ∷ [])
inserted-sent true sent r = refl
inserted-sent false sent r = refl

buffer-Emptied :
    (rest : List DbRecord) (p : Process)
    → p.exit ≡ none
    → p.in_hand ≡ none
    → p.queue.buffer ≡ rest
    → Emptied rest p
buffer-Emptied [] p x free e = (
  p,
  here,
  x,
  refl,
  refl,
  e,
  free,
  sym (ap (λ b. p.queue.inserted ++ b) e ∙ append-nil p.queue.inserted),
  sent_then-nil p.pool_open p.sent,
)
buffer-Emptied (r ∷ rest) p x free e =
    let p₁ = record p {
      in_hand = some r;
      queue = record p.queue { buffer = rest; inserted = p.queue.inserted ++ r ∷ [] };
    } in
    let received : Reach p p₁ = next here (receives r rest x free e refl) in
    let written : Reach p (inserted r p₁) = next received (inserts r x refl refl) in
    let (q, later, a, b, c, d, f, g, h) = buffer-Emptied rest (inserted r p₁) x refl refl in
    (
      q,
      Reach-trans written later,
      a,
      b,
      c,
      d,
      f,
      g ∙ append_assoc p.queue.inserted (r ∷ []) rest ∙ ap (λ l. p.queue.inserted ++ l) (sym e),
      h
          ∙ ap (λ l. sent_then p.pool_open l rest) (inserted-sent p.pool_open p.sent r)
          ∙ sent_then-append p.pool_open p.sent (r ∷ []) rest,
    )

pub in_hand-Emptied :
    (o : Option DbRecord) (p : Process)
    → p.exit ≡ none
    → p.in_hand ≡ o
    → Emptied (held o ++ p.queue.buffer) p
in_hand-Emptied none p x h = buffer-Emptied p.queue.buffer p x h refl
in_hand-Emptied (some r) p x h =
    let (q, later, a, b, c, d, f, g, i) =
      buffer-Emptied p.queue.buffer (inserted r p) x refl refl in
    (
      q,
      Reach-trans (next here (inserts r x h refl)) later,
      a,
      b,
      c,
      d,
      f,
      g,
      i
          ∙ ap (λ l. sent_then p.pool_open l p.queue.buffer) (inserted-sent p.pool_open p.sent r)
          ∙ sent_then-append p.pool_open p.sent (r ∷ []) p.queue.buffer,
    )
