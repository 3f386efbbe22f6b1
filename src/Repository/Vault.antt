-- ===== src/Repository/Vault.antt =====
-- What internal/repository/secret_repo.go promises, with no table: a vault holds at most one secret for
-- a token, and answers three kinds of requests. The rows and their order, the ids, the events and the
-- calls of the database are forgotten.
pub mod View
pub mod Refines
use disapyr_link.Common.{ℤ, ◌≡◌, List, [], ◌∷◌, Bytes, same, if◌then◌else◌, Option, none, some}
use disapyr_link.Model.{Secret}
use disapyr_link.Repository.{live, expired}

abbrev pub Vault : Type 0
Vault = Bytes → Option Secret

pub data Ask : Type 0 where
  deposit : Secret → Ask
  withdraw : ℤ → Bytes → Ask
  purge : ℤ → Ask

-- What the caller learns; `broken` is an error of the database.
pub data Outcome : Type 0 where
  stored missing done broken : Outcome
  given : Secret → Outcome

abbrev pub put_in : Secret → Vault → Vault
put_in s v u = if same s.token u then some s else v u

abbrev pub take_from : Bytes → Vault → Vault
take_from t v u = if same t u then none else v u

abbrev pub when_live : ℤ → Option Secret → Option Secret
when_live now none = none
when_live now (some s) = if live now s.expires_at then some s else none

abbrev pub unexpired : ℤ → Option Secret → Option Secret
unexpired now none = none
unexpired now (some s) = if expired now s then none else some s

abbrev pub purged : ℤ → Vault → Vault
purged now v u = unexpired now (v u)

-- How a vault may serve a request. An error can mean that nothing was done, or that it was done and the
-- answer was lost.
pub data Serves (v : Vault) (a : Ask) (v' : Vault) : Outcome → Type 0 where
  deposited :
      (s : Secret) → a ≡ deposit s → v s.token ≡ none → v' ≡ put_in s v → Serves v a v' stored
  withdrawn :
      (now : ℤ) (t : Bytes) (s : Secret)
      → a ≡ withdraw now t
      → when_live now (v t) ≡ some s
      → v' ≡ take_from t v
      → Serves v a v' (given s)
  not_there :
      (now : ℤ) (t : Bytes)
      → a ≡ withdraw now t
      → when_live now (v t) ≡ none
      → v' ≡ v
      → Serves v a v' missing
  swept : (now : ℤ) → a ≡ purge now → v' ≡ purged now v → Serves v a v' done
  failed : v' ≡ v → Serves v a v' broken
  unheard : (x : Outcome) → Serves v a v' x → Serves v a v' broken

-- A vault serves requests one after another.
abbrev pub Runs : Vault → List Ask → List Outcome → Vault → Type 0
Runs v [] xs v' = (xs ≡ []) × (v' ≡ v)
Runs v (a ∷ asks) xs v' =
    (x : Outcome) × (ys : List Outcome) × (u : Vault) × (xs ≡ x ∷ ys)
    × Serves v a u x
    × Runs u asks ys v'
