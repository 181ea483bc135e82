-- ===== src/Auth/Service/Confirm/Admitted.antt =====
-- The session that a confirm of internal/auth/service.go opens, as the validation sees it.
use mathlib.Core.Path.{subst}
use mathlib.Core.Option.{some-injective}
use passwordless_auth_servic.Prelude.{
  ℕ, suc, ◌+◌, ◌<◌, String, Bool, true, false, ◌||◌, some, List, [], ◌∷◌, ◌++◌, str_eq, eq_refl,
  ◌==◌, ==_refl, any, find, lt→ltb, ◌≡◌, refl, ap, sym, ◌∙◌, arith, inl, inr, Bool-cases,
}
use passwordless_auth_servic.Auth.Domain.{
  Time, Uuid, Account, Verification, Session, session_idle_window,
}
use passwordless_auth_servic.Auth.Failure.{ok}
use passwordless_auth_servic.Auth.Session.{is_valid}
use passwordless_auth_servic.Platform.World.{Db, answered, Env, World}
use passwordless_auth_servic.Platform.World.Runs.{ok-injective}
use passwordless_auth_servic.Postgres.Accounts.{clashes}
use passwordless_auth_servic.Postgres.Sessions.{has_token_hash}
use passwordless_auth_servic.Postgres.Integrity.{IsSound}
use passwordless_auth_servic.Postgres.Integrity.Rows.{Distinct}
use passwordless_auth_servic.Auth.Service.{fresh_session, hash_token}
use passwordless_auth_servic.Auth.Service.Confirm.{ConfirmResult, confirm_verification}
use passwordless_auth_servic.Auth.Service.Confirm.Effect.{Resolves, Confirms}
use passwordless_auth_servic.Auth.Service.Confirm.Outcomes.{confirm_verification_cases}
use passwordless_auth_servic.Auth.Service.Sessions.{validate_session}
use passwordless_auth_servic.Auth.Service.Sessions.Outcomes.{principal_of}
use passwordless_auth_servic.Auth.Service.Sessions.Progress.{validate_session_stored}

module _ {ℓ} {A : Type ℓ} where
  find-snoc-fresh :
      (p : A → Bool) (xs : List A) (y : A)
      → any p xs ≡ false
      → p y ≡ true
      → find p (xs ++ y ∷ []) ≡ some y
  find-snoc-fresh p [] y fresh h = rw h refl
  find-snoc-fresh p (x ∷ xs) y fresh h = elim (Bool-cases (p x)) [
    | inl here ↦ let clash = rw here at fresh in absurd (cc)
    | inr other ↦ rw other (find-snoc-fresh p xs y (rw other at fresh) h)
  ]

  any-or_right :
      (q p : A → Bool) (xs : List A) → any (λ x. q x || p x) xs ≡ false → any p xs ≡ false
  any-or_right q p [] h = refl
  any-or_right q p (x ∷ xs) h = ground (arith, any-or_right q p xs)

  any-or_left : (q p : A → Bool) (xs : List A) → any (λ x. q x || p x) xs ≡ false → any q xs ≡ false
  any-or_left q p [] h = refl
  any-or_left q p (x ∷ xs) h = ground (arith, any-or_left q p xs)

  find-any :
      (p q : A → Bool) (xs : List A) {y : A} → find p xs ≡ some y → any q xs ≡ false → q y ≡ false
  find-any p q [] e h = absurd (cc)
  find-any p q (x ∷ xs) {y} e h = elim (Bool-cases (p x)) [
    | inl here ↦
        let same : x ≡ y = some-injective _ _ (rw here at e) in
        let first : q x ≡ false = ground arith in ap q (sym same) ∙ first
    | inr other ↦ find-any p q xs (rw other at e) (ground arith)
  ]

same_id :
    (xs : List Account) (a : Account)
    → any (clashes a) xs ≡ false
    → any (λ b. b.id == a.id) xs ≡ false
same_id [] a h = refl
same_id (x ∷ xs) a h = ground (arith, same_id xs a)

-- Among accounts that do not clash, one that some test finds is found by its id.
find-by_id :
    (p : Account → Bool) (xs : List Account) {a : Account}
    → Distinct clashes xs
    → find p xs ≡ some a
    → find (λ b. b.id == a.id) xs ≡ some a
find-by_id p [] distinct e = absurd (cc)
find-by_id p (x ∷ xs) {a} (fresh, distinct) e = elim (Bool-cases (p x)) [
  | inl here ↦
      subst (λ y. find (λ b. b.id == y.id) (x ∷ xs) ≡ some y) (some-injective _ _ (rw here at e))
        (rw (==_refl x.id) refl)
  | inr other ↦
      let later = rw other at e in
      let apart : clashes x a ≡ false = find-any p (clashes x) xs later fresh in
      let differ : (x.id == a.id) ≡ false = ground arith in
      rw differ (find-by_id p xs distinct later)
]

module _ (v : Verification) (now : Time) (session : Session) (a : Account) (d d' : Db) where
  account_found :
      (d1 : Db)
      → Distinct clashes d.accounts
      → Resolves v now a d d1
      → find (λ (b : Account). b.id == a.id) d1.accounts ≡ some a
  account_found d1 distinct (inl (signin, found, same)) =
      ap (λ (e : Db). find (λ (b : Account). b.id == a.id) e.accounts) same
      ∙ find-by_id (λ b. str_eq b.phone v.phone) d.accounts distinct found
  account_found d1 distinct (inr (id, other, made, fresh, stored)) =
      ap (λ (e : Db). find (λ (b : Account). b.id == a.id) e.accounts) stored
      ∙ find-snoc-fresh (λ b. b.id == a.id) d.accounts a (same_id d.accounts a fresh) (==_refl a.id)

  -- The opened session is the row of its token, and its account is stored.
  confirmed_rows :
      Distinct clashes d.accounts
      → Confirms v now session a d d'
      → (find (has_token_hash session.token_hash) d'.sessions
          ≡ some (record session { account_id = a.id }))
        × (find (λ (b : Account). b.id == a.id) d'.accounts ≡ some a)
  confirmed_rows distinct (d1, resolved, free, rows, stored) = (
    ap (λ (e : Db). find (has_token_hash session.token_hash) e.sessions) stored
        ∙ find-snoc-fresh (has_token_hash session.token_hash) d1.sessions
            (record session { account_id = a.id })
            (any-or_right (λ t. t.id == session.id) (has_token_hash session.token_hash) d1.sessions
              free)
            (eq_refl session.token_hash),
    ap (λ (e : Db). find (λ (b : Account). b.id == a.id) e.accounts) stored
        ∙ account_found d1 distinct resolved,
  )

-- The token is that of a stored session of the account, which is valid.
abbrev pub Usable : Env → ConfirmResult → World → Type 0
Usable env res u =
    (s : Session) × (find (has_token_hash (hash_token env res.session_token)) u.db.sessions
      ≡ some s)
    × (find (λ (b : Account). b.id == s.account_id) u.db.accounts ≡ some res.account)
    × (s.account_id ≡ res.account.id)
    × (is_valid s (env.now (suc u.calls)) ≡ true)

module _ (env : Env) (id : Uuid) (code : String) (w u : World) (res : ConfirmResult) where
  pub confirmed-Usable :
      IsSound w.db
      → (confirm_verification env id code w).0 ≡ ok res
      → u.db ≡ (confirm_verification env id code w).1.db
      → env.now (suc u.calls) < env.now (suc w.calls) + session_idle_window
      → Usable env res u
  unfolding is_valid fresh_session hash_token
  confirmed-Usable sound done same soon = elim (confirm_verification_cases env id code w) [
    | inl (bad, _, _) ↦ absurd (cc)
    | inr (v, _, _, (a, token, sid, stored, inr bad)) ↦ absurd (cc)
    | inr (v, _, _, (a, token, sid, stored, inl good)) ↦
        let now = env.now (suc w.calls) in
        let opened = fresh_session sid (env.sum256 token) now in
        let (row, there) =
          confirmed_rows v now opened a w.db (confirm_verification env id code w).1.db
            sound.accounts_distinct stored in
        subst (λ r. Usable env r u) (ok-injective (sym good ∙ done))
          (
            record opened { account_id = a.id },
            ap (λ (d : Db). find (has_token_hash (env.sum256 token)) d.sessions) same ∙ row,
            ap (λ (d : Db). find (λ (b : Account). b.id == a.id) d.accounts) same ∙ there,
            refl,
            lt→ltb _ _ soon,
          )
  ]

  -- The token that a confirm returns is worth its account: on a database that answers, whose unique
  -- keys and references are intact, a validation of the token on the tables that the confirm left,
  -- sooner than the idle window of 60 days after the confirm, names the account that the confirm
  -- returned.
  pub confirm_then_validate :
      (answers : (k : ℕ) → env.driver k ≡ answered)
      → IsSound w.db
      → (confirm_verification env id code w).0 ≡ ok res
      → u.db ≡ (confirm_verification env id code w).1.db
      → env.now (suc u.calls) < env.now (suc w.calls) + session_idle_window
      → (validate_session env res.session_token u).0 ≡ ok (principal_of env res.account)
  confirm_then_validate answers sound done same soon =
      let (s, row, there, _, valid) = confirmed-Usable sound done same soon in
      let validated =
        validate_session_stored env answers res.session_token u s res.account row there in
      rw valid at validated
