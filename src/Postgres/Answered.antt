-- ===== src/Postgres/Answered.antt =====
-- The calls of the repositories on a database that answers: what they need and what they return.
use passwordless_auth_servic.Prelude.{
  ℕ, String, true, false, none, some, List, [], ◌∷◌, ◌++◌, str_eq, ◌==◌, any, find, select, length,
  update, ◌≡◌, ◌≢◌, refl, arith,
}
use passwordless_auth_servic.Auth.Domain.{Time, Uuid, Account, Verification, Session}
use passwordless_auth_servic.Auth.Failure.{ok, err, sentinel, not_found, errors_is}
use passwordless_auth_servic.Platform.World.{answered, Env, World, Exec}
use passwordless_auth_servic.Platform.Uow.{in_tx}
use passwordless_auth_servic.Postgres.Driver.{counted}
use passwordless_auth_servic.Postgres.Accounts
use passwordless_auth_servic.Postgres.Verifications
use passwordless_auth_servic.Postgres.Verifications.{has_id, set_columns, find_latest, sends_since}
use passwordless_auth_servic.Postgres.Verifications.Enum.{stored}
use passwordless_auth_servic.Postgres.Sessions
use passwordless_auth_servic.Postgres.Sessions.{has_token_hash, session_clashes, account_exists_in}

-- A row that a search finds is among the rows of its id.
pub find-row :
    (id : Uuid) (vs : List Verification) {v : Verification}
    → find (has_id id) vs ≡ some v
    → length (select (has_id v.id) vs) ≢ 0
find-row id [] e = absurd (cc)
find-row id (u ∷ vs) {v} e = ground (arith, find-row id vs {v = v})

pub find-has_id :
    (id : Uuid) (vs : List Verification) {v : Verification}
    → find (has_id id) vs ≡ some v
    → v.id ≡ id
find-has_id id [] e = absurd (cc)
find-has_id id (r ∷ vs) {v} e = ground (arith, find-has_id id vs {v = v})

pub find-session_row :
    (h : String) (ss : List Session) {s : Session}
    → find (has_token_hash h) ss ≡ some s
    → length (select (λ t. t.id == s.id) ss) ≢ 0
find-session_row h [] e = absurd (cc)
find-session_row h (t ∷ ss) {s} e = ground (arith, find-session_row h ss {s = s})

pub find-account_exists_in :
    (phone : String) (rows : List Account) {a : Account}
    → find (λ b. str_eq b.phone phone) rows ≡ some a
    → any (λ (b : Account). b.id == a.id) rows ≡ true
find-account_exists_in phone [] e = absurd (cc)
find-account_exists_in phone (b ∷ rows) {a} e =
    ground (arith, find-account_exists_in phone rows {a = a})

module _ (env : Env) (answers : (k : ℕ) → env.driver k ≡ answered) (w : World) where
  pub get_answered :
      (id : Uuid) {v : Verification}
      → find (has_id id) w.db.verifications ≡ some v
      → Verifications.get env id w ≡ (ok v, counted w)
  unfolding Verifications.get
  get_answered id found = rw (answers w.calls, found) refl

  pub find_by_phone_answered :
      (phone : String) {a : Account}
      → find (λ b. str_eq b.phone phone) w.db.accounts ≡ some a
      → Accounts.find_by_phone env phone w ≡ (ok a, counted w)
  unfolding Accounts.find_by_phone
  find_by_phone_answered phone found = rw (answers w.calls, found) refl

  pub find_by_phone_missing :
      (phone : String)
      → find (λ b. str_eq b.phone phone) w.db.accounts ≡ none
      → Accounts.find_by_phone env phone w ≡ (err (sentinel not_found), counted w)
  unfolding Accounts.find_by_phone
  find_by_phone_missing phone missing = rw (answers w.calls, missing) refl

  pub find_latest_answered :
      (phone : String) {v : Verification}
      → find_latest phone w.db ≡ some v
      → Verifications.find_latest_by_phone env phone w ≡ (ok v, counted w)
  unfolding Verifications.find_latest_by_phone
  find_latest_answered phone found = rw (answers w.calls, found) refl

  pub find_latest_missing :
      (phone : String)
      → find_latest phone w.db ≡ none
      → Verifications.find_latest_by_phone env phone w ≡ (err (sentinel not_found), counted w)
  unfolding Verifications.find_latest_by_phone errors_is
  find_latest_missing phone missing = rw (answers w.calls, missing) refl

  pub count_sends_answered :
      (phone : String) (since : Time)
      → Verifications.count_sends_since env phone since w
        ≡ (ok (sends_since phone since w.db), counted w)
  unfolding Verifications.count_sends_since
  count_sends_answered phone since = rw (answers w.calls) refl

  pub create_verification_answered :
      (v : Verification)
      → any (has_id v.id) w.db.verifications ≡ false
      → Verifications.create env v w ≡ (
        ok tt,
        record (counted w) {
          db = record w.db { verifications = w.db.verifications ++ stored v ∷ [] };
        },
      )
  unfolding Verifications.create
  create_verification_answered v free = rw (answers w.calls, free) refl

  pub find_by_id_answered :
      (id : Uuid) {a : Account}
      → find (λ (b : Account). b.id == id) w.db.accounts ≡ some a
      → Accounts.find_by_id env id w ≡ (ok a, counted w)
  unfolding Accounts.find_by_id
  find_by_id_answered id found = rw (answers w.calls, found) refl

  pub find_by_token_hash_answered :
      (token_hash : String) {s : Session}
      → find (has_token_hash token_hash) w.db.sessions ≡ some s
      → Sessions.find_by_token_hash env token_hash w ≡ (ok s, counted w)
  unfolding Sessions.find_by_token_hash
  find_by_token_hash_answered token_hash found = rw (answers w.calls, found) refl

  pub create_session_answered :
      (s : Session)
      → any (session_clashes s) w.db.sessions ≡ false
      → account_exists_in s.account_id w.db ≡ true
      → Sessions.create env s w
        ≡ (ok tt, record (counted w) { db = record w.db { sessions = w.db.sessions ++ s ∷ [] } })
  unfolding Sessions.create
  create_session_answered s free there = rw (answers w.calls, free, there) refl

  pub save_verification_answered :
      (v : Verification)
      → length (select (has_id v.id) w.db.verifications) ≢ 0
      → Verifications.save env v w ≡ (
        ok tt,
        record (counted w) {
          db = record w.db {
            verifications = update (has_id v.id) (set_columns v) w.db.verifications;
          };
        },
      )
  unfolding Verifications.save
  save_verification_answered v rows = let there = answers w.calls in ground arith

  pub save_session_answered :
      (s : Session)
      → length (select (λ t. t.id == s.id) w.db.sessions) ≢ 0
      → Sessions.save env s w ≡ (
        ok tt,
        record (counted w) {
          db = record w.db {
            sessions =
                update
                  (λ t. t.id == s.id)
                  (λ t. record t { last_active_at = s.last_active_at; expires_at = s.expires_at })
                  w.db.sessions;
          };
        },
      )
  unfolding Sessions.save
  save_session_answered s rows = let there = answers w.calls in ground arith

  pub in_tx_answered {ℓ} :
      {A : Type ℓ} (body : Exec A) {a : A} {u : World}
      → body (counted w) ≡ (ok a, u)
      → in_tx env body w ≡ (ok a, counted u)
  unfolding in_tx
  in_tx_answered body {a} {u} done = rw (answers w.calls, done, answers u.calls) refl
