-- ===== src/Platform/Whatsapp/Delivery.antt =====
-- How `SendCode` of internal/platform/whatsapp/client.go ends.
use mathlib.Core.Option.{some-injective}
use passwordless_auth_servic.Prelude.{
  ap, ltb, leb, ◌||◌, Option, String, true, false, none, some, List, ◌∷◌, str_eq, eq_iff, ◌≡◌, ◌≢◌,
  ◌≤◌, ◌<◌, refl, ◌⊎◌, inl, inr, arith, Bool-cases, Option-cases,
}
use passwordless_auth_servic.Auth.Failure.{Result, is_err, ok}
use passwordless_auth_servic.Platform.Whatsapp.{
  Client, HttpRequest, HttpResponse, Outside, request_body, messages_request, messages_url,
  send_code, post_body, settle_response,
}

-- Nothing was sent, and an error is returned.
abbrev pub Refuses : List HttpRequest → Result (Unit {0}) × List HttpRequest → Type 0
Refuses sent (r, sent') = (is_err r ≡ true) × (sent' ≡ sent)

-- The client's credentials are set and the message of the code was posted, once.
abbrev pub Posts :
    Outside → Client → String → String → List HttpRequest → List HttpRequest → String → Type 0
Posts o c phone code sent sent' body =
    (c.access_token ≢ "")
    × (c.phone_number_id ≢ "")
    × (o.marshal (request_body c phone code) ≡ some body)
    × (sent' ≡ messages_request c body ∷ sent)

abbrev pub Succeeds : HttpResponse → Type 0
Succeeds resp = (200 ≤ resp.status_code) × (resp.status_code < 300)

-- The result is a success exactly if the answer is a 2xx response.
abbrev pub Judged : Option HttpResponse → Result (Unit {0}) → Type 0
Judged answer r =
    ((r ≡ ok tt) × (resp : HttpResponse) × (answer ≡ some resp) × Succeeds resp)
    ⊎ ((is_err r ≡ true) × ((resp : HttpResponse) → answer ≡ some resp → ¬ Succeeds resp))

-- The message was posted, and the result tells how it was answered.
abbrev pub Attempts :
    Outside
    → Client
    → String
    → String
    → List HttpRequest
    → Result (Unit {0}) × List HttpRequest
    → Type 0
Attempts o c phone code sent (r, sent') =
    (body : String) × Posts o c phone code sent sent' body
    × Judged (o.do_request (messages_request c body)) r

judged : (o : Outside) (answer : Option HttpResponse) → Judged answer (settle_response o answer)
judged o none = inr (refl, λ resp e _. cc)
judged o (some resp) = elim (Bool-cases (ltb resp.status_code 200 || leb 300 resp.status_code)) [
  | inr good ↦ rw good (inl (refl, resp, refl, (ground arith, ground arith)))
  | inl bad ↦ rw bad (
      inr (
        refl,
        λ other e good.
            let same = some-injective _ _ e in
            let low = ap (λ (x : HttpResponse). x.status_code) same in ground arith,
      ))
]

-- A send posts nothing and fails, as it always does without credentials; or it posts the message of
-- the code once, and it succeeds exactly if that is answered with a 2xx status.
pub send_code_delivers :
    (o : Outside) (c : Client) (phone code : String) (sent : List HttpRequest)
    → let p = send_code o c phone code sent in Refuses sent p ⊎ Attempts o c phone code sent p
unfolding send_code
send_code_delivers o c phone code sent = elim (Bool-cases (str_eq c.access_token "")) [
  | inl unset ↦ rw unset (inl (refl, refl))
  | inr token ↦ rw token (elim (Bool-cases (str_eq c.phone_number_id "")) [
    | inl unset ↦ rw unset (inl (refl, refl))
    | inr number ↦ rw number (posted token number)
  ])
]
  where
    is_set : (s : String) → str_eq s "" ≡ false → s ≢ ""
    is_set s unequal e = let equal = (eq_iff s "").1 e in cc

    posted :
        str_eq c.access_token "" ≡ false
        → str_eq c.phone_number_id "" ≡ false
        → let p = post_body o c (o.marshal (request_body c phone code)) sent in
          Refuses sent p ⊎ Attempts o c phone code sent p
    posted token number = elim (Option-cases (o.marshal (request_body c phone code))) [
      | inl none_made ↦ rw none_made (inl (refl, refl))
      | inr (body, made) ↦ rw made (elim (Bool-cases (o.is_url (messages_url c))) [
        | inr bad ↦ rw bad (inl (refl, refl))
        | inl good ↦ rw good (
            inr (
              body,
              (is_set c.access_token token, is_set c.phone_number_id number, refl, refl),
              judged o (o.do_request (messages_request c body)),
            ))
      ])
    ]
