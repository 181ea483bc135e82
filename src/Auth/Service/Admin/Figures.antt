-- ===== src/Auth/Service/Admin/Figures.antt =====
-- The figures of the analytics.
use passwordless_auth_servic.Prelude.{
  Bool, ℕ, ◌+◌, ◌-◌, ◌*◌, ◌≤◌, ◌<◌, String, not, ◌&&◌, List, [], ◌∷◌, length, select, sum_of, leb,
  ltb, ◌≡◌, refl, ap, sym, ◌∙◌, arith, inl, inr, Bool-cases,
}
use passwordless_auth_servic.Auth.Domain.{
  Time, Account, Status, verified, locked, status_eq, is_nil, signup_method_phone,
  signup_method_google,
}
use passwordless_auth_servic.Auth.Failure.{ok, wrapped}
use passwordless_auth_servic.Platform.World.{Db, Env, World, Exec, on_error, ◌>>=◌, pure}
use passwordless_auth_servic.Platform.World.Runs.{>>=-run, on_error-eq-ok, returned, Result-cases}
use passwordless_auth_servic.Postgres.Driver.{counted}
use passwordless_auth_servic.Postgres.Accounts
use passwordless_auth_servic.Postgres.Verifications
use passwordless_auth_servic.Auth.Service.Admin.{
  AnalyticsResult, range_window, failure_rate, analytics,
}

-- The accounts and the challenges of the range.
abbrev pub accounts_since : Time → Db → List Account
accounts_since since d = select (λ a. leb since a.created_at) d.accounts

abbrev pub count_in : Status → Time → Db → ℕ
count_in status since d =
    length (select (λ v. status_eq v.status status && leb since v.sent_at) d.verifications)

abbrev pub failures_since : Time → Db → ℕ
failures_since since d =
    sum_of (λ v. v.failed_attempts) (select (λ v. leb since v.sent_at) d.verifications)

-- The accounts of the range without a Google subject, and those with one.
abbrev pub phone_signups : Time → Db → ℕ
phone_signups since d =
    length (select (λ a. leb since a.created_at && is_nil a.google_subject) d.accounts)

abbrev pub google_signups : Time → Db → ℕ
google_signups since d =
    length (select (λ a. leb since a.created_at && not (is_nil a.google_subject)) d.accounts)

-- The figures of a range: each account of the range counts once, by phone where it has no Google subject
-- and by Google where it has one, the rate lies between 0 and 1 and is the share of the wrong codes among
-- them and the verified challenges, and every challenge of status locked counts as a lockout, also one
-- whose lock has lapsed.
abbrev pub Reports : Time → Db → AnalyticsResult → Type 0
Reports since d r =
    (r.signups_by_method
      ≡ (signup_method_phone, phone_signups since d)
        ∷ (signup_method_google, google_signups since d)
        ∷ [])
    × (phone_signups since d + google_signups since d ≡ length (accounts_since since d))
    × (r.verification_failure_rate.numerator ≤ r.verification_failure_rate.denominator)
    × (0 < r.verification_failure_rate.denominator)
    × (r.verification_failure_rate.numerator * (failures_since since d + count_in verified since d)
        ≡ failures_since since d * r.verification_failure_rate.denominator)
    × (r.lockout_count ≡ count_in locked since d)

failure_rate-bounds :
    (failed confirmed : ℕ)
    → let q = failure_rate failed confirmed in
      (q.numerator ≤ q.denominator)
      × (0 < q.denominator)
      × (q.numerator * (failed + confirmed) ≡ failed * q.denominator)
unfolding failure_rate
failure_rate-bounds failed confirmed = (
  ground arith,
  ground arith,
  elim (Bool-cases (ltb 0 (failed + confirmed))) [
    | inl some_counted ↦ rw some_counted refl
    | inr none_counted ↦
        rw none_counted (let zero_failed : failed ≡ 0 = ground arith in omega arith)
  ],
)

select-select :
    (p q : Account → Bool) (rows : List Account)
    → length (select q (select p rows)) ≡ length (select (λ a. p a && q a) rows)
select-select p q [] = refl
select-select p q (a ∷ rows) = ground (arith, select-select p q rows)

partition :
    (since : Time) (rows : List Account)
    → length (select (λ a. leb since a.created_at && is_nil a.google_subject) rows)
        + length (select (λ a. leb since a.created_at && not (is_nil a.google_subject)) rows)
      ≡ length (select (λ a. leb since a.created_at) rows)
partition since [] = refl
partition since (a ∷ rows) = ground (arith, partition since rows)

module _ (env : Env) (since : Time) (w : World) {w' : World} where
  count_created_since-eq-ok :
      {counts : ℕ × ℕ}
      → Accounts.count_created_since env since w ≡ (ok counts, w')
      → (counts.0 ≡ phone_signups since w.db)
        × (counts.1 ≡ google_signups since w.db)
        × (w'.db ≡ w.db)
  unfolding Accounts.count_created_since
  count_created_since-eq-ok e =
      let by_phone =
        select-select (λ a. leb since a.created_at) (λ a. is_nil a.google_subject) w.db.accounts in
      let by_google =
        select-select (λ a. leb since a.created_at) (λ a. not (is_nil a.google_subject))
          w.db.accounts in
      ground arith

  sum_failed_attempts_since-eq-ok :
      {n : ℕ}
      → Verifications.sum_failed_attempts_since env since w ≡ (ok n, w')
      → (n ≡ failures_since since w.db) × (w'.db ≡ w.db)
  unfolding Verifications.sum_failed_attempts_since
  sum_failed_attempts_since-eq-ok e = ground arith

  count_by_status_since-eq-ok :
      (status : Status) {n : ℕ}
      → Verifications.count_by_status_since env status since w ≡ (ok n, w')
      → (n ≡ count_in status since w.db) × (w'.db ≡ w.db)
  unfolding Verifications.count_by_status_since
  count_by_status_since-eq-ok status e = ground arith

figures :
    (env : Env) (since : Time) (w : World) {counts : ℕ × ℕ} {failed confirmed lockouts : ℕ}
    {w1 w2 w3 w' : World}
    → Accounts.count_created_since env since w ≡ (ok counts, w1)
    → Verifications.sum_failed_attempts_since env since w1 ≡ (ok failed, w2)
    → Verifications.count_by_status_since env verified since w2 ≡ (ok confirmed, w3)
    → Verifications.count_by_status_since env locked since w3 ≡ (ok lockouts, w')
    → Reports since w.db (record {
      signups_by_method = (signup_method_phone, counts.0) ∷ (signup_method_google, counts.1) ∷ [];
      verification_failure_rate = failure_rate failed confirmed;
      lockout_count = lockouts;
    })
      × (w'.db ≡ w.db)
figures env since w {counts} {failed} {confirmed} {lockouts} {w1} {w2} {w3} {w'} e1 e2 e3 e4 =
    let (by_phone, by_google, d1) = count_created_since-eq-ok env since w e1 in
    let (is_failed, d2) = sum_failed_attempts_since-eq-ok env since w1 e2 in
    let (is_confirmed, d3) = count_by_status_since-eq-ok env since w2 verified e3 in
    let (is_locked, d4) = count_by_status_since-eq-ok env since w3 locked e4 in
    let (below, positive, share) = failure_rate-bounds failed confirmed in
    let f : failed ≡ failures_since since w.db = is_failed ∙ ap (failures_since since) d1 in
    let c : confirmed ≡ count_in verified since w.db =
      is_confirmed ∙ ap (count_in verified since) (d2 ∙ d1) in
    (
      (
        rw (by_phone, by_google) refl,
        partition since w.db.accounts,
        below,
        positive,
        rw (sym f, sym c) share,
        is_locked ∙ ap (count_in locked since) (d3 ∙ (d2 ∙ d1)),
      ),
      d4 ∙ (d3 ∙ (d2 ∙ d1)),
    )

-- What an analytics run that succeeds returns.
abbrev pub Analysed : Env → String → World → AnalyticsResult → World → Type 0
Analysed env rng w r w' =
    (window : ℕ) × (range_window rng ≡ ok window)
    × Reports (env.now w.calls - window) w.db r
    × (w'.db ≡ w.db)

-- The four queries, since a time.
abbrev reporting : Env → Time → Exec AnalyticsResult
reporting env since = do
  signups ←
      on_error (wrapped "auth: analytics: count accounts") (Accounts.count_created_since env since)
  failed ←
      on_error (wrapped "auth: analytics: sum failed attempts")
        (Verifications.sum_failed_attempts_since env since)
  confirmed ←
      on_error (wrapped "auth: analytics: count verified")
        (Verifications.count_by_status_since env verified since)
  lockouts ←
      on_error (wrapped "auth: analytics: count locked")
        (Verifications.count_by_status_since env locked since)
  pure (record {
    signups_by_method = (signup_method_phone, signups.0) ∷ (signup_method_google, signups.1) ∷ [];
    verification_failure_rate = failure_rate failed confirmed;
    lockout_count = lockouts;
  })

reporting-eq-ok :
    (env : Env) (since : Time) (w : World) {r : AnalyticsResult} {w' : World}
    → reporting env since w ≡ (ok r, w')
    → Reports since w.db r × (w'.db ≡ w.db)
reporting-eq-ok env since w =
    >>=-run (on_error _ (Accounts.count_created_since env since)) _ w λ counts w1 e1.
      >>=-run (on_error _ (Verifications.sum_failed_attempts_since env since)) _ w1 λ failed w2 e2.
        >>=-run (on_error _ (Verifications.count_by_status_since env verified since)) _ w2
          λ confirmed w3 e3.
            >>=-run (on_error _ (Verifications.count_by_status_since env locked since)) _ w3
              λ lockouts w4 e4.
                returned (λ x u. Reports since w.db x × (u.db ≡ w.db)) {w = w4}
                  (figures env since w
                    (on_error-eq-ok _ (Accounts.count_created_since env since) w e1)
                    (on_error-eq-ok _ (Verifications.sum_failed_attempts_since env since) w1 e2)
                    (on_error-eq-ok _ (Verifications.count_by_status_since env verified since) w2
                      e3)
                    (on_error-eq-ok _ (Verifications.count_by_status_since env locked since) w3 e4))

-- An analytics run that succeeds was asked for a known range and changes no table. On the tables at
-- its start, over the rows since the range began: the signups by phone are the accounts created without a
-- Google subject, those by Google the ones with one, and they add up to the accounts created; the failure
-- rate is the share of the wrong codes in them and the verified challenges, lies between 0 and 1 and has
-- no zero divisor; and the lockouts are the challenges of status locked, whether or not their lock has
-- lapsed.
pub analytics_lem :
    (env : Env) (rng : String) (w : World) {r : AnalyticsResult} {w' : World}
    → analytics env rng w ≡ (ok r, w')
    → Analysed env rng w r w'
unfolding analytics
analytics_lem env rng w e = elim (Result-cases (range_window rng)) [
  | inr (x, bad) ↦ absurd (let stuck = rw bad at e in cc)
  | inl (window, known) ↦
      let (reports, kept) =
        reporting-eq-ok env (env.now w.calls - window) (counted w) (rw known at e) in
      (window, known, reports, kept)
]
