-- ===== src/Http/Connection.antt =====
-- internal/transport/http/ws_handler.go: a WebSocket connection from its acceptance to its close.
pub mod Frames
pub mod Closing
mod Tests
use wirechat_server.Common.{
  ℕ, ◌≡◌, ◌≢◌, String, Bool, true, false, not, ◌&&◌, ◌||◌, Option, none, some, List, [], ◌∷◌, ◌==◌,
  if◌then◌else◌,
}
use wirechat_server.Config.{ℤ, pos, negsuc}
use wirechat_server.Auth.{Crypto, JwtConfig}
use wirechat_server.Hub.Types.{Event, Command}
use wirechat_server.Proto.{Inbound, Outbound}
use wirechat_server.Http.Mapper.{outbound_from_event}
use wirechat_server.Http.Socket.{Session, Reaction, closes, replies, forwards, silent, read}

-- The errors of the libraries, and what the program asks of them: `errors.Is` for context.Canceled and
-- io.EOF, `websocket.CloseStatus`, and the text. `none` is nil.
pub record Errors : Type 1 where
  pub Error : Type 0
  pub is_canceled : Error → Bool
  pub is_eof : Error → Bool
  pub close_status : Option Error → ℤ
  pub text : Error → String
  -- What json.Unmarshal says of a message that cannot be decoded.
  pub malformed : Error

abbrev pub int_eq : ℤ → ℤ → Bool
int_eq (pos m) (pos n) = m == n
int_eq (negsuc m) (negsuc n) = m == n
int_eq _ _ = false

-- websocket.StatusNormalClosure, StatusGoingAway and StatusInternalError.
abbrev pub normal_closure : ℤ
normal_closure = pos 1000

abbrev pub going_away : ℤ
going_away = pos 1001

abbrev pub internal_error : ℤ
internal_error = pos 1011

abbrev pub is_polite : ℤ → Bool
is_polite s = int_eq s normal_closure || int_eq s going_away

module _ (lib : Errors) where
  open lib use {Error, is_canceled, is_eof, close_status, text}

  unfoldable pub is_expected_close : Option Error → Bool
  is_expected_close none = false
  is_expected_close (some e) = is_canceled e || is_eof e || is_polite (close_status (some e))

  -- What the read loop meets when it reads: a message, with what comes of the answer if one is written,
  -- or an error, that of the idle timeout included.
  pub data Heard : Type 0 where
    message : Inbound → Option Error → Heard
    failure : Error → Heard

  -- How a loop ends: it is still running, or it has returned an error or nil.
  pub data Ending : Type 0 where
    running : Ending
    returned : Option Error → Ending

  -- One turn of readLoop goes on with the rest, or ends the loop.
  after_reaction : Reaction → Option Error → Ending → Ending
  after_reaction closes written rest = returned (some lib.malformed)
  after_reaction (replies e) none rest = rest
  after_reaction (replies e) (some x) rest = returned (some x)
  after_reaction (forwards cmd) written rest = rest
  after_reaction silent written rest = rest

  -- readLoop, with its reads.
  unfoldable pub read_ending :
      (crypto : Crypto) (cfg : JwtConfig) (required : Bool) → Session → List Heard → Ending
  unfolding after_reaction
  read_ending crypto cfg required s [] = running
  read_ending crypto cfg required s (failure e ∷ hs) =
      returned (if is_expected_close (some e) then none else some e)
  read_ending crypto cfg required s (message m written ∷ hs) =
      let turn = read crypto cfg required s m in
      after_reaction turn.0 written (read_ending crypto cfg required turn.1 hs)

  -- What the `select` of writeLoop receives, with what comes of the write or the ping.
  pub data Wake : Type 0 where
    event : Event → Option Error → Wake
    channel_closed : Wake
    tick : Option Error → Wake
    context_done : Error → Wake

  -- writeLoop: what it writes to the socket, and how it ends.
  unfoldable pub write_loop : List Wake → List (Option Outbound) × Ending
  write_loop [] = ([], running)
  write_loop (channel_closed ∷ ws) = ([], returned none)
  write_loop (context_done e ∷ ws) = ([], returned (some e))
  write_loop (tick (some e) ∷ ws) = ([], returned (some e))
  write_loop (tick none ∷ ws) = write_loop ws
  write_loop (event v (some e) ∷ ws) = ([], returned (some e))
  write_loop (event v none ∷ ws) =
      let rest = write_loop ws in (outbound_from_event v ∷ rest.0, rest.1)

  -- `err = nil` for the ends that are no errors, and the close frame of an error that is left.
  frame_of : Option Error → ℤ → ℤ × String
  frame_of none status = (status, "closing")
  frame_of (some e) status =
      if is_polite status
      then (status, "closing")
      else (if int_eq status normal_closure then internal_error else status, text e)

  -- The close frame that ServeHTTP sends: `err` is what the loop that ended first returned.
  unfoldable pub close_frame : Option Error → ℤ × String
  unfolding frame_of
  close_frame none = (normal_closure, "closing")
  close_frame (some e) =
      if is_canceled e
      then (normal_closure, "closing")
      else (let err : Option Error = if is_eof e then none else some e in
          let s : ℤ = close_status err in
          frame_of err (if int_eq s (pos 0) then normal_closure else s))

  -- What the library documents of CloseStatus: the code of the close frame that an error stands for, -1
  -- for any other error and for nil.
  pub record CloseLaws : Type 0 where
    pub code : Error → Option ℕ
    pub status_nil : close_status none ≡ negsuc 0
    pub status_code : (e : Error) (n : ℕ) → code e ≡ some n → close_status (some e) ≡ pos n
    pub status_other : (e : Error) → code e ≡ none → close_status (some e) ≡ negsuc 0
