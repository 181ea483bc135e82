-- ===== src/Auth/HttpError/Coverage.antt =====
-- Which errors the mapping leaves to the generic response.
use passwordless_auth_servic.Prelude.{true, ◌≡◌, ◌≢◌, arith}
use passwordless_auth_servic.Auth.Failure.{Sentinel, locked, Error, errors_is}
use passwordless_auth_servic.Auth.HttpError.{other_error, to_http_error}

-- An error that names a sentinel other than `ErrLocked`, however deep in a chain or a join, never
-- ends as the generic 500.
to_http_error_500 :
    (e : Error) (s : Sentinel) → s ≢ locked → errors_is e s ≡ true → (to_http_error e).status ≢ 500
unfolding to_http_error other_error
to_http_error_500 e s typed named = ground arith
