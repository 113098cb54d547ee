-- ===== src/AntiCheat/Idle.antt =====
-- The telemetry hook of a page that is not a contest's, or of a visitor who is not watched.
use campus_compile.Base.{ℕ, ◌≡◌, Bool, false, [], String, arith}
use campus_compile.AntiCheat.{
  Hook, Metadata, dispatch_telemetry, handle_visibility_change, handle_mouse_leave,
  handle_mouse_enter, mouse_timeout, flush_telemetry,
}

-- A telemetry hook that watches nobody records nothing.
abbrev pub IsIdle : Hook → Type 0
IsIdle h = (h.is_contest ≡ false) × (h.event_buffer ≡ []) × (h.posted ≡ [])

module _ (h : Hook) (idle : IsIdle h) where
  dispatch-IsIdle :
      (event_type : String) (metadata : Metadata) (now : ℕ)
      → IsIdle (dispatch_telemetry event_type metadata now h)
  unfolding dispatch_telemetry
  dispatch-IsIdle event_type metadata now = ground arith

  pub visibility-IsIdle : (hidden : Bool) (now : ℕ) → IsIdle (handle_visibility_change hidden now h)
  unfolding handle_visibility_change
  visibility-IsIdle hidden now = ground arith

  pub leave-IsIdle : (now : ℕ) → IsIdle (handle_mouse_leave now h)
  unfolding handle_mouse_leave
  leave-IsIdle now = ground arith

  pub enter-IsIdle : IsIdle (handle_mouse_enter h)
  unfolding handle_mouse_enter
  enter-IsIdle = ground arith

  pub timeout-IsIdle :
      (i : ℕ) (has_focus : Bool) (now : ℕ) → IsIdle (mouse_timeout i has_focus now h)
  unfolding mouse_timeout dispatch_telemetry
  timeout-IsIdle i has_focus now = ground arith

  pub flush-IsIdle : IsIdle (flush_telemetry h)
  unfolding flush_telemetry
  flush-IsIdle = ground arith
