-- ===== src/Database/Laws.antt =====
-- What `Connect` of internal/db/db.go leaves.
use disapyr_link.Common.{
  ℕ, ◌≡◌, refl, ap, ◌∙◌, ◌⊎◌, inl, inr, true, false, List, [], ◌∷◌, ◌++◌, append-nil, sym, codes,
  Option, none, some, append_assoc, All, subst,
}
use disapyr_link.Model.{Error, wrapped, Result, ok, err}
use disapyr_link.Database.{
  Pool, migrations, failed_at, migrated_to, migrate_each, migrate, after_migrate, connect,
}

-- How a connection can end, by the answers to the pool, the ping and each migration: with an open pool,
-- after every migration was answered without an error; or with the error of the first step that failed,
-- and no open pool.
pub data Ends (pool ping : Result (Unit {0})) (exec : ℕ → Result (Unit {0}))
    : Option Pool × Result (Unit {0}) → Type 0 where
  connected :
      (p : Pool)
      → p.open_now ≡ true
      → p.migrated ≡ migrations
      → pool ≡ ok tt
      → ping ≡ ok tt
      → All (λ m. exec m ≡ ok tt) migrations
      → Ends pool ping exec (some p, ok tt)
  no_pool :
      (cause : Error)
      → pool ≡ err cause
      → Ends pool ping exec (none, err (wrapped (codes "create pool") cause))
  gave_up :
      (p : Pool) (cause : Error)
      → p.open_now ≡ false
      → p.migrated ≡ []
      → ping ≡ err cause
      → Ends pool ping exec (some p, err (wrapped (codes "ping database") cause))
  stopped_at :
      (p : Pool) (before after : List ℕ) (n : ℕ) (cause : Error)
      → p.open_now ≡ false
      → migrations ≡ before ++ n ∷ after
      → p.migrated ≡ before
      → ping ≡ ok tt
      → All (λ m. exec m ≡ ok tt) before
      → exec n ≡ err cause
      → Ends pool ping exec (some p, err (wrapped (codes "migrate") (failed_at n cause)))

-- How the loop over migrations can end.
abbrev Stopped : (ℕ → Result (Unit {0})) → List ℕ → Pool → Type 0
Stopped exec ns p =
    (before : List ℕ) × (after : List ℕ) × (n : ℕ) × (cause : Error) × (ns ≡ before ++ n ∷ after)
    × All (λ m. exec m ≡ ok tt) before
    × (exec n ≡ err cause)
    × (migrate_each exec ns p
        ≡ (record p { migrated = p.migrated ++ before }, err (failed_at n cause)))

migrate_each-ends :
    (exec : ℕ → Result (Unit {0})) (ns : List ℕ) (p : Pool)
    → ((migrate_each exec ns p ≡ (record p { migrated = p.migrated ++ ns }, ok tt))
        × All (λ m. exec m ≡ ok tt) ns)
      ⊎ Stopped exec ns p
unfolding migrate_each
migrate_each-ends exec [] p =
    inl ((λ i. (record p { migrated = sym (append-nil p.migrated) i }, ok tt)), tt)
migrate_each-ends exec (n ∷ ns) p =
    go (exec n) refl (migrate_each-ends exec ns (migrated_to p n (exec n)))
  where
    go :
        (r : Result (Unit {0}))
        → exec n ≡ r
        → ((migrate_each exec ns (migrated_to p n (exec n)) ≡ (
          record p {
            open_now = (migrated_to p n (exec n)).open_now;
            migrated = (migrated_to p n (exec n)).migrated ++ ns;
          },
          ok tt,
        ))
            × All (λ m. exec m ≡ ok tt) ns)
          ⊎ Stopped exec ns (migrated_to p n (exec n))
        → ((migrate_each exec (n ∷ ns) p ≡ (record p { migrated = p.migrated ++ n ∷ ns }, ok tt))
            × All (λ m. exec m ≡ ok tt) (n ∷ ns))
          ⊎ Stopped exec (n ∷ ns) p
    go (err e) h rest = inr (
      [],
      ns,
      n,
      e,
      refl,
      tt,
      h,
      rw h (λ i. (record p { migrated = sym (append-nil p.migrated) i }, err (failed_at n e))),
    )
    go (ok u) h rest = elim (rw h at rest) [
      | inl (done, fine) ↦ inl (
        rw h (done ∙ λ i. (record p { migrated = append_assoc p.migrated (n ∷ []) ns i }, ok tt)),
        (h, fine),
      )
      | inr (before, after, m, cause, split, fine, bad, result) ↦ inr (
        n ∷ before,
        after,
        m,
        cause,
        ap (λ l. n ∷ l) split,
        (h, fine),
        bad,
        rw h (
            result ∙ λ i. (
              record p { migrated = append_assoc p.migrated (n ∷ []) before i },
              err (failed_at m cause),
            )),
      )
    ]

-- Connecting ends in one of four ways, and the answers of the database tell which. If the pool, the ping
-- and every migration are answered without an error, with an open pool and all migrations carried out in
-- their order. Otherwise with an error and with no pool left open: that of the pool; that of the ping, and
-- no migration was carried out; or that of a migration with its number, where the migrations before it
-- were answered without an error and are the ones that were carried out.
pub connect-Ends :
    (pool ping : Result (Unit {0})) (exec : ℕ → Result (Unit {0}))
    → Ends pool ping exec (connect pool ping exec)
unfolding connect migrate
connect-Ends (err e) ping exec = no_pool e refl
connect-Ends (ok u) (err e) exec =
    gave_up (record { open_now = false; migrated = [] }) e refl refl refl
connect-Ends (ok u) (ok v) exec =
    let p : Pool = record { open_now = true; migrated = [] } in
    elim (migrate_each-ends exec migrations p) [
      | inl (done, fine) ↦
          subst (λ r. Ends (ok u) (ok v) exec (after_migrate r)) (sym done)
            (connected (record p { migrated = migrations }) refl refl refl refl fine)
      | inr (before, after, n, cause, split, fine, bad, result) ↦
          subst (λ r. Ends (ok u) (ok v) exec (after_migrate r)) (sym result)
            (stopped_at (record { open_now = false; migrated = before }) before after n cause refl
              split refl refl fine bad)
    ]
