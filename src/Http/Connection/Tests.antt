-- ===== src/Http/Connection/Tests.antt =====
-- Closing a connection with a library that knows close codes.
use wirechat_server.Common.{ℕ, ◌≡◌, refl, false, Option, none, some}
use wirechat_server.Config.{ℤ, pos, negsuc}
use wirechat_server.Http.Connection.{Errors, CloseLaws, close_frame}
use wirechat_server.Http.Connection.Closing.{close_frame-minus_one}

-- An error is the code of a close frame, or a timeout.
abbrev status_of : Option (Option ℕ) → ℤ
status_of none = negsuc 0
status_of (some none) = negsuc 0
status_of (some (some n)) = pos n

abbrev plain : Errors
plain = record {
  Error = Option ℕ;
  is_canceled = λ e. false;
  is_eof = λ e. false;
  close_status = status_of;
  text = λ e. "deadline exceeded";
  malformed = none;
}

plain-CloseLaws : CloseLaws plain
plain-CloseLaws = record {
  code = λ e. e;
  status_nil = refl;
  status_code = λ e n q. rw q refl;
  status_other = λ e q. rw q refl;
}

close_frame-minus_one_example : close_frame plain (some none) ≡ (negsuc 0, "deadline exceeded")
unfolding plain-CloseLaws
close_frame-minus_one_example = close_frame-minus_one plain plain-CloseLaws none refl refl
