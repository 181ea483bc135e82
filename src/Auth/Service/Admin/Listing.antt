-- ===== src/Auth/Service/Admin/Listing.antt =====
-- The admin's account list.
use passwordless_auth_servic.Prelude.{
  ℕ, ◌+◌, ◌≤◌, String, Bool, true, not, List, [], ◌∷◌, ℤ, str_eq, eq_refl, any, map, select, ◌≡◌,
  refl, arith, ◌∙◌,
}
use passwordless_auth_servic.Auth.Domain.{Time, Account, Verification, is_nil}
use passwordless_auth_servic.Auth.Failure.{ok}
use passwordless_auth_servic.Platform.World.{Db, Env, World, on_error, observe}
use passwordless_auth_servic.Platform.World.Runs.{>>=-run, on_error-eq-ok, returned}
use passwordless_auth_servic.Postgres.Driver.{counted}
use passwordless_auth_servic.Postgres.Like.{escape_like}
use passwordless_auth_servic.Postgres.Accounts
use passwordless_auth_servic.Postgres.Accounts.{account_list}
use passwordless_auth_servic.Postgres.Verifications
use passwordless_auth_servic.Postgres.Verifications.{
  find_latest, is_among, locked_phone_rows, locked_map,
}
use passwordless_auth_servic.Postgres.Lockouts.{locked_at, locked_map-find_latest}
use passwordless_auth_servic.Auth.Service.Admin.{
  AccountListItem, signup_method, effective_limit, effective_offset, list_item, list_accounts,
}

-- The item of one account, with its lockout looked up by itself.
unfoldable pub item_of : Db → Time → Account → AccountListItem
item_of d now a = record {
  id = a.id;
  role = a.role;
  phone = a.phone;
  google_linked = not (is_nil a.google_subject);
  signup_method = signup_method a.google_subject;
  created_at = a.created_at;
  lockout_active = locked_at now (find_latest a.phone d);
}

abbrev phones_of : List Account → List String
phones_of = map (λ a. a.phone)

abbrev AllAmong : List String → List Account → Type 0
AllAmong phones [] = Unit
AllAmong phones (a ∷ as') = (any (λ p. str_eq p a.phone) phones ≡ true) × AllAmong phones as'

AllAmong-cons :
    (p : String) (phones : List String) (as' : List Account)
    → AllAmong phones as'
    → AllAmong (p ∷ phones) as'
AllAmong-cons p phones [] h = tt
AllAmong-cons p phones (a ∷ as') h = (ground arith, AllAmong-cons p phones as' h.1)

AllAmong-phones_of : (as' : List Account) → AllAmong (phones_of as') as'
AllAmong-phones_of [] = tt
AllAmong-phones_of (a ∷ as') = (
  ground (arith, eq_refl a.phone),
  AllAmong-cons a.phone (phones_of as') as' (AllAmong-phones_of as'),
)

items_agree :
    (d : Db) (now : Time) (phones : List String) (as' : List Account)
    → AllAmong phones as'
    → map (list_item (locked_map now (locked_phone_rows phones d))) as' ≡ map (item_of d now) as'
unfolding list_item item_of
items_agree d now phones [] h = refl
items_agree d now phones (a ∷ as') h =
    rw (locked_map-find_latest now a.phone phones d h.0, items_agree d now phones as' h.1)

list_eq_ok :
    (env : Env) (filter : String) (limit offset : ℕ) (w : World) {rows : List Account} {w' : World}
    → Accounts.list env filter limit offset w ≡ (ok rows, w')
    → (rows ≡ account_list (escape_like filter) limit offset w.db) × (w' ≡ counted w)
unfolding Accounts.list
list_eq_ok env filter limit offset w e = ground arith

none_among : (vs : List Verification) → select (is_among []) vs ≡ []
none_among [] = refl
none_among (v ∷ vs) = none_among vs

no_locked : (now : Time) (d : Db) → locked_map now (locked_phone_rows [] d) ≡ []
unfolding locked_map locked_phone_rows
no_locked now d = rw (none_among d.verifications) refl

locked_phones_eq_ok :
    (env : Env) (phones : List String) (now : Time) (w : World) {locked : List (String × Bool)}
    {w' : World}
    → Verifications.locked_phones env phones now w ≡ (ok locked, w')
    → (locked ≡ locked_map now (locked_phone_rows phones w.db))
      × (w'.db ≡ w.db)
      × (w'.calls ≤ w.calls + 1)
unfolding Verifications.locked_phones
locked_phones_eq_ok env [] now w e = let nobody = no_locked now w.db in ground arith
locked_phones_eq_ok env (p ∷ ps) now w e = ground arith

abbrev Listed : Env → String → ℤ → ℤ → World → List AccountListItem → World → Type 0
Listed env filter limit offset w items w' =
    (items
      ≡ map (item_of w.db (env.now (w.calls + 1))) (
          account_list (escape_like filter) (effective_limit limit) (effective_offset offset) w.db))
    × (w'.db ≡ w.db)
    × (w'.calls ≤ w.calls + 3)

clock_eq_ok :
    (env : Env) (w : World) {now : Time} {w1 w2 : World}
    → observe env.now w1 ≡ (ok now, w2)
    → w1 ≡ counted w
    → (now ≡ env.now (w.calls + 1)) × (w2.db ≡ w.db) × (w2.calls ≡ w.calls + 2)
clock_eq_ok env w e is_w1 = (ground arith, ground arith, ground arith)

list_accounts_steps :
    (env : Env) (filter : String) (limit offset : ℤ) (w : World) {rows : List Account} {now : Time}
    {locked : List (String × Bool)} {w1 w2 w3 : World}
    → Accounts.list env filter (effective_limit limit) (effective_offset offset) w ≡ (ok rows, w1)
    → observe env.now w1 ≡ (ok now, w2)
    → Verifications.locked_phones env (phones_of rows) now w2 ≡ (ok locked, w3)
    → Listed env filter limit offset w (map (list_item locked) rows) w3
list_accounts_steps env filter limit offset w {rows} {now} {locked} {w1} {w2} {w3} e1 e2 e3 =
    let (is_rows, is_w1) = list_eq_ok env filter _ _ w e1 in
    let (is_locked, db3, calls3) = locked_phones_eq_ok env (phones_of rows) now w2 e3 in
    let (is_now, db2, calls) = clock_eq_ok env w e2 is_w1 in
    (
      rw (
        is_locked,
        is_now,
        db2,
        items_agree w.db (env.now (w.calls + 1)) (phones_of rows) rows (AllAmong-phones_of rows),
        is_rows,
      ),
      db3 ∙ db2,
      omega arith,
    )

-- A listing that succeeds returns, for the limit and the offset in force, the accounts whose phone
-- matches the escaped filter, newest first, each with the lockout that looking up its phone's latest
-- challenge would show; it changes no table, and makes at most three outside calls however many
-- accounts there are.
pub list_accounts_lem :
    (env : Env) (filter : String) (limit offset : ℤ) (w : World) {items : List AccountListItem}
    {w' : World}
    → list_accounts env filter limit offset w ≡ (ok items, w')
    → (items
        ≡ map (item_of w.db (env.now (w.calls + 1))) (
            account_list
              (escape_like filter)
              (effective_limit limit)
              (effective_offset offset)
              w.db))
      × (w'.db ≡ w.db)
      × (w'.calls ≤ w.calls + 3)
unfolding list_accounts
list_accounts_lem env filter limit offset w =
    >>=-run (on_error _ (Accounts.list env filter _ _)) _ w λ rows w1 e1.
      >>=-run (on_error _ (Verifications.locked_phones env (phones_of rows) (env.now w1.calls))) _
        (counted w1)
        λ locked w3 e3. returned (Listed env filter limit offset w) {w = w3} (
          list_accounts_steps env filter limit offset w
            (on_error-eq-ok _ (Accounts.list env filter _ _) w e1) refl
            (on_error-eq-ok _ (Verifications.locked_phones env (phones_of rows) (env.now w1.calls))
              (counted w1) e3))
