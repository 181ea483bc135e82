-- ===== src/Tests/Administration.antt =====
-- The theorems on the administrators' use cases and on transactions, at the concrete deployment.
use passwordless_auth_servic.Postgres.Accounts
use passwordless_auth_servic.Postgres.Verifications
use passwordless_auth_servic.Prelude.{
  ◌+◌, ◌≤◌, Bool, true, false, List, [], ◌∷◌, map, find, some, pos, ◌==◌, ◌≡◌, refl, ◌⊎◌, arith,
}
use passwordless_auth_servic.Auth.Domain.{
  Account, Verification, role_athlete, max_failed_attempts, lockout_duration,
}
use passwordless_auth_servic.Auth.Failure.{Result, ok}
use passwordless_auth_servic.Auth.Verification.{is_locked, register_failure, send_cap_reached}
use passwordless_auth_servic.Platform.World.{World}
use passwordless_auth_servic.Platform.Uow.{in_tx}
use passwordless_auth_servic.Platform.Uow.Atomic.{AllOrNothing, in_tx_atomic}
use passwordless_auth_servic.Postgres.Driver.{counted}
use passwordless_auth_servic.Postgres.Like.{escape_like, like, contains_pattern}
use passwordless_auth_servic.Postgres.Accounts.{account_list, has_subject}
use passwordless_auth_servic.Postgres.Verifications.{
  sends_since, has_id, find_latest, locked_phone_rows, locked_map,
}
use passwordless_auth_servic.Auth.Service.Admin.{
  AccountListItem, list_accounts, clear_lockout, unlock_and_record, list_item, signup_method,
  effective_limit, effective_offset, AnalyticsResult, analytics, range_window, failure_rate, unlock,
}
use passwordless_auth_servic.Auth.Service.Admin.Figures.{Analysed, analytics_lem}
use passwordless_auth_servic.Auth.Service.Admin.Relocking.{unlock_then_failure}
use passwordless_auth_servic.Auth.Service.Admin.Listing.{item_of, list_accounts_lem}
use passwordless_auth_servic.Auth.Service.Admin.Clearing.{Leaves, Clears, clear_lockout_cases}
use passwordless_auth_servic.Tests.{calm, noon, alice, locked_challenge, shop}

abbrev unlocked : Result Bool × World
unlocked = clear_lockout calm "root" 7 shop

clear_lockout_cases_example :
    Leaves shop.db unlocked
    ⊎ ((a : Account) × (v : Verification) × (find (λ (b : Account). b.id == 7) shop.db.accounts
          ≡ some a)
        × (find_latest a.phone shop.db ≡ some v)
        × (is_locked v noon ≡ true)
        × Clears calm "root" 7 v shop.db unlocked)
clear_lockout_cases_example = clear_lockout_cases calm "root" 7 shop

in_tx_atomic_example :
    AllOrNothing shop.db
      (unlock_and_record calm "root" 7 locked_challenge (counted shop))
      (in_tx calm (unlock_and_record calm "root" 7 locked_challenge) shop)
in_tx_atomic_example = in_tx_atomic calm (unlock_and_record calm "root" 7 locked_challenge) shop

abbrev listed : Result (List AccountListItem) × World
listed = list_accounts calm "01" (pos 0) (pos 0) shop

abbrev alice_item : AccountListItem
alice_item = record {
  id = 7;
  role = role_athlete;
  phone = "+201012345678";
  google_linked = false;
  signup_method = "phone";
  created_at = alice.created_at;
  lockout_active = true;
}

lists : listed ≡ (ok (alice_item ∷ []), listed.1)
unfolding list_accounts effective_limit effective_offset Accounts.list Verifications.locked_phones
    locked_phone_rows locked_map escape_like like contains_pattern list_item signup_method
lists = refl

list_accounts_lem_example :
    ((alice_item ∷ [])
      ≡ map (item_of shop.db noon) (
          account_list
            (escape_like "01")
            (effective_limit (pos 0))
            (effective_offset (pos 0))
            shop.db))
    × (listed.1.db ≡ shop.db)
    × (listed.1.calls ≤ shop.calls + 3)
list_accounts_lem_example = list_accounts_lem calm "01" (pos 0) (pos 0) shop lists

abbrev analysed : Result AnalyticsResult × World
analysed = analytics calm "24h" shop

abbrev figures_of_shop : AnalyticsResult
figures_of_shop = record {
  signups_by_method = ("phone", 0) ∷ ("google", 0) ∷ [];
  verification_failure_rate = record { numerator = 5; denominator = 5 };
  lockout_count = 1;
}

analyses : analysed ≡ (ok figures_of_shop, analysed.1)
unfolding analytics range_window failure_rate Accounts.count_created_since
    Verifications.sum_failed_attempts_since Verifications.count_by_status_since
analyses = refl

analytics_lem_example : Analysed calm "24h" shop figures_of_shop analysed.1
analytics_lem_example = analytics_lem calm "24h" shop analyses

spent : max_failed_attempts ≤ locked_challenge.failed_attempts
spent = omega arith

unlock_then_failure_example :
    (is_locked (unlock locked_challenge) noon ≡ false)
    × (send_cap_reached (unlock locked_challenge) ≡ false)
    × ((register_failure (unlock locked_challenge) noon).1 ≡ true)
    × ((register_failure (unlock locked_challenge) noon).0.locked_until
        ≡ some (noon + lockout_duration))
unlock_then_failure_example = unlock_then_failure locked_challenge noon noon spent
