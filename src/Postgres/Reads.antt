-- ===== src/Postgres/Reads.antt =====
-- How the lookups of the repositories end: they change no table, and a row that they return is one of
-- the table.
use passwordless_auth_servic.Prelude.{
  String, false, Option, none, some, str_eq, ◌==◌, find, ◌≡◌, refl, ◌⊎◌, inl, inr,
}
use passwordless_auth_servic.Auth.Domain.{Uuid}
use passwordless_auth_servic.Auth.Failure.{Error, Result, ok, err, sentinel, not_found, errors_is}
use passwordless_auth_servic.Platform.World.{
  Outcome, answered, failed, lost, Env, World, ◌>>=◌, or_raise, on_error,
}
use passwordless_auth_servic.Postgres.Driver.{counted, settle_query, driver_error}
use passwordless_auth_servic.Postgres.Accounts
use passwordless_auth_servic.Postgres.Accounts.{has_subject}
use passwordless_auth_servic.Postgres.Verifications
use passwordless_auth_servic.Postgres.Verifications.{has_id, find_latest}
use passwordless_auth_servic.Postgres.Sessions
use passwordless_auth_servic.Postgres.Sessions.{has_token_hash}

-- A lookup of `o` made at `w` ended in `p`: with an error, which is `ErrNotFound` only if there is
-- no row, or with the row.
abbrev pub Looked {ℓ} : {A : Type ℓ} → Option A → World → Result A × World → Type ℓ
Looked {A} o w p =
    ((e : Error) × (p ≡ (err e, counted w))
      × (((o ≡ none) × (e ≡ sentinel not_found)) ⊎ (errors_is e not_found ≡ false)))
    ⊎ ((a : A) × (o ≡ some a) × (p ≡ (ok a, counted w)))

query_then_scan {ℓ} :
    {A : Type ℓ} (o : Outcome) (f : Error → Error) (row : Option A) (w : World)
    → f (sentinel not_found) ≡ sentinel not_found
    → errors_is (f driver_error) not_found ≡ false
    → Looked row w
        (on_error f ((λ u. settle_query o row (counted u)) >>= or_raise (sentinel not_found)) w)
query_then_scan answered f none w keeps other = inl (_, refl, inl (refl, keeps))
query_then_scan answered f (some a) w keeps other = inr (a, refl, refl)
query_then_scan failed f row w keeps other = inl (_, refl, inr other)
query_then_scan lost f row w keeps other = inl (_, refl, inr other)

scan_outside {ℓ} :
    {A : Type ℓ} (o : Outcome) (f : Error → Error) (row : Option A) (w : World)
    → errors_is (f driver_error) not_found ≡ false
    → Looked row w
        ((on_error f (λ u. settle_query o row (counted u)) >>= or_raise (sentinel not_found)) w)
scan_outside answered f none w other = inl (_, refl, inl (refl, refl))
scan_outside answered f (some a) w other = inr (a, refl, refl)
scan_outside failed f row w other = inl (_, refl, inr other)
scan_outside lost f row w other = inl (_, refl, inr other)

module _ (env : Env) (w : World) where
  pub get_cases :
      (id : Uuid) → Looked (find (has_id id) w.db.verifications) w (Verifications.get env id w)
  unfolding Verifications.get errors_is
  get_cases id =
      query_then_scan (env.driver w.calls) _ (find (has_id id) w.db.verifications) w refl refl

  pub find_latest_cases :
      (phone : String)
      → Looked (find_latest phone w.db) w (Verifications.find_latest_by_phone env phone w)
  unfolding Verifications.find_latest_by_phone errors_is
  find_latest_cases phone =
      query_then_scan (env.driver w.calls) _ (find_latest phone w.db) w refl refl

  pub find_by_phone_cases :
      (phone : String)
      → Looked
          (find (λ a. str_eq a.phone phone) w.db.accounts)
          w
          (Accounts.find_by_phone env phone w)
  unfolding Accounts.find_by_phone errors_is
  find_by_phone_cases phone =
      scan_outside (env.driver w.calls) _ (find (λ a. str_eq a.phone phone) w.db.accounts) w refl

  pub find_by_id_cases :
      (id : Uuid) → Looked (find (λ a. a.id == id) w.db.accounts) w (Accounts.find_by_id env id w)
  unfolding Accounts.find_by_id errors_is
  find_by_id_cases id =
      scan_outside (env.driver w.calls) _ (find (λ a. a.id == id) w.db.accounts) w refl

  pub find_by_google_subject_cases :
      (subject : String)
      → Looked
          (find (has_subject subject) w.db.accounts)
          w
          (Accounts.find_by_google_subject env subject w)
  unfolding Accounts.find_by_google_subject errors_is
  find_by_google_subject_cases subject =
      scan_outside (env.driver w.calls) _ (find (has_subject subject) w.db.accounts) w refl

  pub find_by_token_hash_cases :
      (token_hash : String)
      → Looked
          (find (has_token_hash token_hash) w.db.sessions)
          w
          (Sessions.find_by_token_hash env token_hash w)
  unfolding Sessions.find_by_token_hash errors_is
  find_by_token_hash_cases token_hash =
      scan_outside (env.driver w.calls) _ (find (has_token_hash token_hash) w.db.sessions) w refl
