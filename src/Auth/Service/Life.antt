-- ===== src/Auth/Service/Life.antt =====
-- What each use case of internal/auth/service.go that writes the table of challenges does to the life of
-- a challenge.
use passwordless_auth_servic.Prelude.{
  ◌-◌, ◌≤◌, ◌<◌, suc, String, Option, some, update, ◌≡◌, refl, ap, ◌∙◌, inl, inr, Bool-cases,
}
use passwordless_auth_servic.Auth.Domain.{
  Time, Uuid, Verification, Account, verified, status_eq, max_sends_per_window, send_cap_window,
}
use passwordless_auth_servic.Auth.Verification.{
  is_locked, is_expired, lock, register_send, mark_verified,
}
use passwordless_auth_servic.Auth.Verification.Life.{
  Actor, administrator, IsOpen, IsNew, wrong_code, right_code, sent_again, resend_capped,
  request_capped, unlocked,
}
use passwordless_auth_servic.Platform.World.{Db, Env, World}
use passwordless_auth_servic.Postgres.Driver.{counted}
use passwordless_auth_servic.Postgres.Verifications.{has_id, set_columns, sends_since}
use passwordless_auth_servic.Postgres.Reads.{get_cases}
use passwordless_auth_servic.Postgres.Integrity.{IsSound}
use passwordless_auth_servic.Postgres.Challenges.{
  challenge, challenge-own, Evolves, Evolves-rows, Evolves-created, Evolves-saved,
  find_latest-challenge, find_latest-phone,
}
use passwordless_auth_servic.Auth.Service.{Service}
use passwordless_auth_servic.Auth.Service.Request.{
  RequestVerificationParams, new_verification, request_verification,
}
use passwordless_auth_servic.Auth.Service.Request.Outcomes.{request_verification_cases}
use passwordless_auth_servic.Auth.Service.Confirm.{
  complete, reject_code, confirm_loaded, confirm_verification,
}
use passwordless_auth_servic.Auth.Service.Confirm.Rejection.{reject_code_cases}
use passwordless_auth_servic.Auth.Service.Confirm.Effect.{Resolves}
use passwordless_auth_servic.Auth.Service.Confirm.Outcomes.{complete_cases}
use passwordless_auth_servic.Auth.Service.Resend.{resend_verification}
use passwordless_auth_servic.Auth.Service.Resend.Outcomes.{resend_verification_cases}
use passwordless_auth_servic.Auth.Service.Admin.{unlock, clear_lockout}
use passwordless_auth_servic.Auth.Service.Admin.Clearing.{clear_lockout_cases}

rows : {d d' : Db} → d ≡ d' → d.verifications ≡ d'.verifications
rows same = ap (λ (d : Db). d.verifications) same

new_verification-IsNew :
    (params : RequestVerificationParams) (normalized : String) (link : Option (String × String))
    (id : Uuid) (code_hash : String) (now : Time)
    → IsNew (new_verification params normalized link id code_hash now)
unfolding new_verification register_send
new_verification-IsNew params normalized link id code_hash now = (refl, refl, refl, refl, refl)

few_sends :
    (params : RequestVerificationParams) (normalized : String) (link : Option (String × String))
    (id : Uuid) (code_hash : String) (now : Time) (d : Db)
    → sends_since normalized (now - send_cap_window) d < max_sends_per_window
    → let v = new_verification params normalized link id code_hash now in
      sends_since v.phone (v.sent_at - send_cap_window) d < max_sends_per_window
unfolding new_verification register_send
few_sends params normalized link id code_hash now d below = below

pub Resolves-rows :
    (v : Verification) (now : Time) {a : Account} {d d1 : Db}
    → Resolves v now a d d1
    → d1.verifications ≡ d.verifications
Resolves-rows v now (inl (_, _, same)) = rows same
Resolves-rows v now (inr (_, _, _, _, stored)) = rows stored

module _ {who : Actor} (env : Env) where
  pub request_verification-Evolves :
      (s : Service) (params : RequestVerificationParams) (w : World)
      → IsSound w.db
      → Evolves who w.db (request_verification env s params w).1.db
  request_verification-Evolves s params w sound =
      let d' = (request_verification env s params w).1.db in
      let now = env.now (suc w.calls) in
      elim (request_verification_cases env s params w) [
        | inl (_, same, _) ↦ Evolves-rows w.db d' (rows same)
        | inr (phone, _, inl (_, same, _)) ↦ Evolves-rows w.db d' (rows same)
        | inr (phone, _, inr (inl (v, latest, free, ready, _, _, _, inl same))) ↦
            Evolves-rows w.db d' (rows same)
        | inr (phone, _, inr (inl (v, latest, free, ready, reached, _, _, inr locked))) ↦
            let own = find_latest-phone phone w.db latest in
            let counted_sends : max_sends_per_window
                ≤ sends_since v.phone (now - send_cap_window) w.db =
              rw own reached in
            Evolves-saved w.db d' (request_capped now free ready counted_sends refl)
              (find_latest-challenge phone w.db sound.verifications_distinct latest) (rows locked)
        | inr (phone, _, inr (inr (_, (link, _, (code, h, j, _, _, inl (_, _, _, same, _)))))) ↦
            Evolves-rows w.db d' (rows same)
        | inr
              (
                phone,
                _,
                inr (inr (_, (link, _, (code, h, j, _, _, inr (_, (_, inl (_, same))))))),
              ) ↦
            Evolves-rows w.db d' (rows same)
        | inr
              (
                phone,
                _,
                inr (
                    inr (
                      (_, _, below),
                      (link, _, (code, h, j, _, _, inr (_, (_, inr (stored, _, _))))),
                    )),
              ) ↦
            let id = env.new_uuid (suc (suc (suc j))) in
            Evolves-created w.db d' (new_verification params phone link id h now)
              (new_verification-IsNew params phone link id h now)
              (few_sends params phone link id h now w.db below) (rows stored)
      ]

  pub resend_verification-Evolves :
      (id : Uuid) (w : World) → Evolves who w.db (resend_verification env id w).1.db
  unfolding lock register_send
  resend_verification-Evolves id w =
      let d' = (resend_verification env id w).1.db in
      let now = env.now (suc w.calls) in
      elim (resend_verification_cases env id w) [
        | inl (_, same, _) ↦ Evolves-rows w.db d' (rows same)
        | inr (v, found, inl (_, _, _, _, _, _, _, inl same)) ↦ Evolves-rows w.db d' (rows same)
        | inr (v, found, inl (free, unused, alive, ready, reached, _, _, inr locked)) ↦
            Evolves-saved w.db d' (resend_capped now (free, unused, alive) ready reached refl)
              (challenge-own id w.db found) (rows locked)
        | inr (v, found, inr (_, (code, h, j, _, _, inl (_, _, _, same, _)))) ↦
            Evolves-rows w.db d' (rows same)
        | inr (v, found, inr (_, (code, h, j, _, _, inr (_, (_, inl (_, same)))))) ↦
            Evolves-rows w.db d' (rows same)
        | inr
              (
                v,
                found,
                inr (
                  (free, unused, alive, ready, below),
                  (code, h, j, _, _, inr (_, (_, inr (stored, _, _)))),
                ),
              ) ↦
            Evolves-saved w.db d' (sent_again now h (free, unused, alive) ready below refl)
              (challenge-own id w.db found) (rows stored)
      ]

  reject_code-Evolves :
      (v : Verification) (now : Time) (w : World)
      → IsOpen v now
      → challenge v.id w.db ≡ some v
      → Evolves who w.db (reject_code env v now w).1.db
  reject_code-Evolves v now w is_open found =
      let d' = (reject_code env v now w).1.db in
      elim (reject_code_cases env v now w) [
        | inl same ↦ Evolves-rows w.db d' (rows same)
        | inr stored ↦ Evolves-saved w.db d' (wrong_code now is_open refl) found (rows stored)
      ]

  complete-Evolves :
      (v : Verification) (now : Time) (w : World)
      → IsOpen v now
      → challenge v.id w.db ≡ some v
      → Evolves who w.db (complete env v now w).1.db
  complete-Evolves v now w is_open found =
      let d' = (complete env v now w).1.db in
      elim (complete_cases env v now w) [
        | inl (_, same) ↦ Evolves-rows w.db d' (rows same)
        | inr (a, token, id, (d1, resolves, _, _, stored), _) ↦
            Evolves-saved w.db d' (right_code now is_open refl) found (
              rows stored
              ∙ ap (update (has_id v.id) (set_columns (mark_verified v)))
                  (Resolves-rows v now resolves))
      ]

  confirm_loaded-Evolves :
      (v : Verification) (now : Time) (code : String) (w : World)
      → challenge v.id w.db ≡ some v
      → Evolves who w.db (confirm_loaded env v now code w).1.db
  unfolding confirm_loaded
  confirm_loaded-Evolves v now code w found = elim (Bool-cases (is_locked v now)) [
    | inl held ↦ rw held (Evolves-rows w.db w.db refl)
    | inr free ↦ rw free (elim (Bool-cases (status_eq v.status verified)) [
      | inl used ↦ rw used (Evolves-rows w.db w.db refl)
      | inr unused ↦ rw unused (elim (Bool-cases (is_expired v now)) [
        | inl late ↦ rw late (Evolves-rows w.db w.db refl)
        | inr alive ↦ rw alive (elim (Bool-cases (env.compare_hash_and_password v.code_hash code)) [
          | inl fits ↦ rw fits (complete-Evolves v now w (free, unused, alive) found)
          | inr wrong ↦ rw wrong (reject_code-Evolves v now w (free, unused, alive) found)
        ])
      ])
    ])
  ]

  pub confirm_verification-Evolves :
      (id : Uuid) (code : String) (w : World)
      → Evolves who w.db (confirm_verification env id code w).1.db
  unfolding confirm_verification
  confirm_verification-Evolves id code w = elim (get_cases env w id) [
    | inl (e, failed, _) ↦ rw failed (Evolves-rows w.db w.db refl)
    | inr (v, found, got) ↦ rw got (
        confirm_loaded-Evolves v (env.now (suc w.calls)) code (counted (counted w))
          (challenge-own id w.db found))
  ]

pub clear_lockout-Evolves :
    {who : Actor} (env : Env) (actor : String) (id : Uuid) (w : World)
    → who ≡ administrator
    → IsSound w.db
    → Evolves who w.db (clear_lockout env actor id w).1.db
unfolding unlock
clear_lockout-Evolves env actor id w admin sound =
    let d' = (clear_lockout env actor id w).1.db in
    let now = env.now (suc w.calls) in
    elim (clear_lockout_cases env actor id w) [
      | inl (same, _) ↦ Evolves-rows w.db d' (rows same)
      | inr (a, v, _, latest, held, ((event, at, cleared), _)) ↦
          Evolves-saved w.db d' (unlocked now admin held refl)
            (find_latest-challenge a.phone w.db sound.verifications_distinct latest) (rows cleared)
    ]
