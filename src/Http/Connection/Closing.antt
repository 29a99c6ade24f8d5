-- ===== src/Http/Connection/Closing.antt =====
-- internal/transport/http/ws_handler.go: the status with which a connection is closed.
use wirechat_server.Common.{
  ◌≡◌, refl, false, none, some, arith, Bool-cases, Option-cases, inl, inr, if◌then◌else◌,
}
use wirechat_server.Config.{negsuc}
use wirechat_server.Http.Connection.{Errors, CloseLaws, close_frame, frame_of, internal_error}

module _ (lib : Errors) (laws : CloseLaws lib) where
  open lib use {Error, is_canceled, is_eof, close_status, text}
  open laws use {code, status_nil, status_code, status_other}

  -- If CloseStatus does what the library documents, a loop that ends with an error that is neither
  -- a cancellation nor the close frame of the peer has its connection closed with the status -1,
  -- and with the text of the error as the reason, unless that is io.EOF.
  pub close_frame-minus_one :
      (e : Error)
      → is_canceled e ≡ false
      → code e ≡ none
      → close_frame lib (some e) ≡ (negsuc 0, if is_eof e then "closing" else text e)
  unfolding close_frame frame_of
  close_frame-minus_one e c n = elim (Bool-cases (is_eof e)) [
    | inl q ↦ rw (c, q, status_nil) refl
    | inr q ↦ rw (c, q, status_other e n) refl
  ]

  -- The status for an internal error is sent only where the peer has sent it.
  pub close_frame-internal :
      (e : Error) → (close_frame lib (some e)).0 ≡ internal_error → code e ≡ some 1011
  unfolding close_frame frame_of
  close_frame-internal e h = elim (Option-cases (code e)) [
    | inl n ↦ ground (arith, status_other e n, status_nil)
    | inr (n, q) ↦ ground (arith, status_code e n q, status_nil, q)
  ]
