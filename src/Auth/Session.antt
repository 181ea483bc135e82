-- ===== src/Auth/Session.antt =====
-- The methods of `Session` in internal/auth/domain.go. A method that mutates its receiver returns
-- the new value.
use passwordless_auth_servic.Prelude.{◌+◌, Bool, not, ◌&&◌, ltb}
use passwordless_auth_servic.Auth.Domain.{
  Time, Session, is_nil, session_idle_window, session_extend_interval,
}

-- `Session.IsValid`
unfoldable pub is_valid : Session → Time → Bool
is_valid s now = is_nil s.revoked_at && ltb now s.expires_at

-- `Session.Extend`
unfoldable pub extend : Session → Time → Session
extend s now = record s { last_active_at = now; expires_at = now + session_idle_window }

-- `Session.NeedsExtension`
unfoldable pub needs_extension : Session → Time → Bool
needs_extension s now = not (ltb now (s.last_active_at + session_extend_interval))
