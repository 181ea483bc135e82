-- ===== src/Auth/Handler/Redeemed.antt =====
-- Challenges that were redeemed, under further requests of internal/auth/handler.go.
use passwordless_auth_servic.Prelude.{
  suc, String, false, some, List, find, ◌≡◌, refl, ap, ◌∙◌, update, inl, inr,
}
use passwordless_auth_servic.Auth.Domain.{Uuid, Verification}
use passwordless_auth_servic.Auth.Failure.{ok}
use passwordless_auth_servic.Auth.Verification.{mark_verified}
use passwordless_auth_servic.Auth.Verification.Life.{visitor, administrator}
use passwordless_auth_servic.Auth.Verification.Life.Bounds.{AreSane}
use passwordless_auth_servic.Auth.Verification.Life.Spent.{IsSpent, IsSpent-closed, Life-IsSpent}
use passwordless_auth_servic.Platform.World.{Db, Env, World}
use passwordless_auth_servic.Postgres.Verifications.{has_id, set_columns}
use passwordless_auth_servic.Postgres.Answered.{find-has_id}
use passwordless_auth_servic.Postgres.Challenges.{challenge, find-update_self}
use passwordless_auth_servic.Postgres.Integrity.{IsSound}
use passwordless_auth_servic.Postgres.Integrity.Rows.{All, All-mono}
use passwordless_auth_servic.Postgres.Integrity.Statements.{IsSound-Stable}
use passwordless_auth_servic.Auth.Service.{Service}
use passwordless_auth_servic.Auth.Service.Keeps.{confirm_verification-Keeps}
use passwordless_auth_servic.Auth.Service.Life.{Resolves-rows}
use passwordless_auth_servic.Auth.Service.Confirm.{ConfirmResult, confirm_verification}
use passwordless_auth_servic.Auth.Service.Confirm.Outcomes.{Refuses, confirm_verification_cases}
use passwordless_auth_servic.Auth.Handler.Routes.{Request, serve_all}
use passwordless_auth_servic.Auth.Handler.Life.{Permits, unlocks, serve_all-Life}

-- A confirm that returned a token leaves its challenge spent.
confirm-IsSpent :
    (env : Env) (id : Uuid) (code : String) (w : World) {r : ConfirmResult} {w' : World}
    → AreSane administrator (challenge id w.db)
    → confirm_verification env id code w ≡ (ok r, w')
    → (v : Verification) × (challenge id w'.db ≡ some v) × IsSpent v
unfolding mark_verified
confirm-IsSpent env id code w {r} {w'} sane e =
    let cases = confirm_verification_cases env id code w in
    elim (rw e at cases) [
      | inl (bad, _, _) ↦ absurd (cc)
      | inr (v, found, _, (a, token, key, (d1, resolves, _, _, stored), _)) ↦
          let is_id = find-has_id id w.db.verifications found in
          let timed = (rw found at sane).timed in
          let set = set_columns (mark_verified v) in
          let rows =
            ap (λ (d : Db). d.verifications) stored
            ∙ ap (update (has_id v.id) set) (Resolves-rows v (env.now (suc w.calls)) resolves) in
          let there =
            ap (find (has_id id)) rows
            ∙ ap (λ k. find (has_id id) (update (has_id k) set w.db.verifications)) is_id
            ∙ find-update_self id set w.db.verifications (λ u. refl) found in
          (mark_verified v, there, (timed, inl refl))
    ]

-- After a confirm that returned a token, on sound tables and for a challenge that keeps the rules, every
-- further confirm of that challenge fails and leaves the accounts and the sessions, whatever its code is,
-- after any further requests without an unlock among them, and whatever the clock, the driver and the
-- other outside calls answer to those and to it.
pub redeemed_stays_closed :
    (env later : Env) (s : Service) (id : Uuid) (code guess : String) (requests : List Request)
    (w : World) {r : ConfirmResult}
    → IsSound w.db
    → AreSane administrator (challenge id w.db)
    → All (λ q. unlocks q ≡ false) requests
    → (confirm_verification env id code w).0 ≡ ok r
    → let u = serve_all later s requests (confirm_verification env id code w).1 in
      Refuses u (confirm_verification later id guess u)
redeemed_stays_closed env later s id code guess requests w {r} sound sane no_unlock e =
    let w' = (confirm_verification env id code w).1 in
    let still_sound = (confirm_verification-Keeps IsSound-Stable env id code).at w sound in
    let u = serve_all later s requests w' in
    let (v, there, spent) = confirm-IsSpent env id code w sane (ap (λ x. (x, w')) e) in
    let path =
      serve_all-Life visitor later s requests w'
        (All-mono (λ q. unlocks q ≡ false) (Permits visitor) requests (λ q no yes. absurd (cc))
          no_unlock)
        still_sound id in
    let (v', there', spent') = Life-IsSpent {v = v} path there spent in
    elim (confirm_verification_cases later id guess u) [
      | inl refuses ↦ refuses
      | inr (v'', found, (free, unused, alive, _), _) ↦
          let same : v' ≡ v'' = cc in
          absurd
            (IsSpent-closed v'' (later.now (suc u.calls)) (rw same at spent') (free, unused, alive))
    ]
