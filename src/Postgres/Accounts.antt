-- ===== src/Postgres/Accounts.antt =====
-- `AccountRepository` of internal/auth/postgres/repository.go, with its statements in queries/ and
-- the constraints of the table user_account in migrations/.
use passwordless_auth_servic.Prelude.{
  ℕ, String, Bool, false, ◌||◌, Option, none, some, List, [], ◌∷◌, ◌++◌, str_eq, ◌==◌, ltb, leb,
  if◌then◌else◌, find, any, select, length, take, drop, not,
}
use passwordless_auth_servic.Auth.Domain.{Time, Uuid, Account, is_nil}
use passwordless_auth_servic.Auth.Failure.{
  Error, Result, ok, err, sentinel, not_found, account_exists, wrapped, as_pg,
}
use passwordless_auth_servic.Platform.World.{
  Db, Env, Exec, ◌>>=◌, pure, attempt, on_error, or_raise, raise,
}
use passwordless_auth_servic.Postgres.Driver.{Written, written, rejected, query, exec}
use passwordless_auth_servic.Postgres.Like.{escape_like, contains_pattern, like}

abbrev pub unique_violation : String
unique_violation = "23505"

-- Both values are not NULL and equal.
abbrev pub same_subject : Option String → Option String → Bool
same_subject none _ = false
same_subject (some s) none = false
same_subject (some s) (some t) = str_eq s t

-- The unique constraints: id, phone, google_subject.
abbrev pub clashes : Account → Account → Bool
clashes a b =
    (a.id == b.id) || str_eq a.phone b.phone || same_subject a.google_subject b.google_subject

abbrev pub has_subject : String → Account → Bool
has_subject subject a = same_subject (some subject) a.google_subject

-- account_create.sql
abbrev pub account_create : Account → Db → Written
account_create a d =
    if any (clashes a) d.accounts
    then rejected unique_violation
    else written 1 (record d { accounts = d.accounts ++ a ∷ [] })

-- `ORDER BY created_at DESC`; rows of one time stay in order.
abbrev pub insert_by_created : Account → List Account → List Account
insert_by_created a [] = a ∷ []
insert_by_created a (b ∷ bs) =
    let rest = b ∷ insert_by_created a bs in
    if ltb a.created_at b.created_at then rest else a ∷ b ∷ bs

abbrev pub newest_first : List Account → List Account
newest_first [] = []
newest_first (a ∷ as') = insert_by_created a (newest_first as')

-- account_list.sql
abbrev pub account_list : String → ℕ → ℕ → Db → List Account
account_list filter limit offset d =
    take limit
      (drop offset (newest_first (select (λ a. like (contains_pattern filter) a.phone) d.accounts)))

-- `errors.As(err, &pgErr) && pgErr.Code == uniqueViolation`
abbrev pub is_unique_violation : Error → Bool
is_unique_violation e = elim (as_pg e) [ none ↦ false | some code ↦ str_eq code unique_violation ]

abbrev pub translate_create : Result ℕ → Exec (Unit {0})
translate_create (ok _) = pure tt
translate_create (err e) =
    if is_unique_violation e
    then raise (sentinel account_exists)
    else raise (wrapped "auth: create account" e)

module _ (env : Env) where
  -- `scanAccount`; no row is `ErrNotFound`.
  abbrev pub scan_account : String → Exec (Option Account) → Exec Account
  scan_account op m = on_error (wrapped op) m >>= or_raise (sentinel not_found)

  unfoldable pub find_by_phone : String → Exec Account
  find_by_phone phone =
      scan_account "find account by phone"
        (query env (λ d. find (λ a. str_eq a.phone phone) d.accounts))

  unfoldable pub find_by_id : Uuid → Exec Account
  find_by_id id =
      scan_account "find account by id" (query env (λ d. find (λ a. a.id == id) d.accounts))

  unfoldable pub find_by_google_subject : String → Exec Account
  find_by_google_subject subject =
      scan_account "find account by google subject"
        (query env (λ d. find (has_subject subject) d.accounts))

  unfoldable pub list : String → ℕ → ℕ → Exec (List Account)
  list phone_filter limit offset =
      on_error (wrapped "auth: list accounts")
        (query env (account_list (escape_like phone_filter) limit offset))

  -- account_count_created_since.sql: phone-only first, Google-linked second
  unfoldable pub count_created_since : Time → Exec (ℕ × ℕ)
  count_created_since since = on_error (wrapped "auth: count accounts created since") (
      query env (λ d.
        let recent = select (λ a. leb since a.created_at) d.accounts in
        (
          length (select (λ a. is_nil a.google_subject) recent),
          length (select (λ a. not (is_nil a.google_subject)) recent),
        )))

  unfoldable pub create : Account → Exec (Unit {0})
  unfolding as_pg
  create a = attempt (exec env (account_create a)) >>= translate_create
