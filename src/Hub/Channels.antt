-- ===== src/Hub/Channels.antt =====
-- internal/core/hub.go: the channels of the hub, and the goroutines around its loop.
pub mod Line
pub mod Order
pub mod Rooms
pub mod Bounds
mod Tests
pub mod Schedules
use wirechat_server.Common.{
  ℕ, zero, suc, ◌+◌, ◌-◌, String, Bool, Option, none, some, List, [], ◌∷◌, ◌++◌, length, ltb, ◌==◌,
  if◌then◌else◌,
}
use wirechat_server.Hub.Types.{Ptr, Client, Command}
use wirechat_server.Hub.{Hub, Go, done, panicked, stuck, set_client, take_oldest}
use wirechat_server.Hub.CallCommands.{CallService}
use wirechat_server.Hub.Loop as Loop
use wirechat_server.Hub.Loop.{step}

-- `register`, `unregister`, `commands`, and `Commands` of each client. A client's goroutines that run
-- consumeCommands either wait for a command or hold one: `waiting` counts the first, `holding` has the
-- commands of the others. `handled` is what the loop has taken from `commands` so far.
pub record System : Type 0 where
  pub hub : Hub
  pub registering : List Ptr
  pub unregistering : List Ptr
  pub queued : List (Ptr × Command)
  pub inbox : Ptr → List Command
  pub waiting : Ptr → ℕ
  pub holding : Ptr → List Command
  pub handled : List (Ptr × Command)

-- The capacities of the channels.
abbrev pub register_cap : ℕ
register_cap = 16

abbrev pub commands_cap : ℕ
commands_cap = 64

abbrev pub inbox_cap : ℕ
inbox_cap = 8

-- What can happen next. The transport calls RegisterClient and UnregisterClient, puts a command into
-- `client.Commands`, takes an event for the socket, and sets who the client is; a goroutine of
-- consumeCommands takes a command or hands over the one that it holds; the loop takes from a channel.
pub data Act : Type 0 where
  registers unregisters writes fetches : Ptr → Act
  submits : Ptr → Command → Act
  identifies : Ptr → ℕ → String → Bool → Act
  hands : Ptr → ℕ → Act
  takes_registration takes_unregistration takes_command : Act

abbrev pub set_at {ℓ} : {A : Type ℓ} → Ptr → A → (Ptr → A) → Ptr → A
set_at c a f d = if d == c then a else f d

-- The element at a place, and the others.
pub pick : ℕ → List Command → Option (Command × List Command)
pick n [] = none
pick zero (x ∷ xs) = some (x, xs)
pick (suc n) (x ∷ xs) = elim (pick n xs) [ none ↦ none | some (y, ys) ↦ some (y, x ∷ ys) ]

-- `none` where the loop does not come out of it.
after_loop : Go Hub → (Hub → System) → Option System
after_loop (done h) f = some (f h)
after_loop panicked f = none
after_loop stuck f = none

-- A send on a channel that drops the value if the channel is full.
abbrev pub try_push : Ptr → List Ptr → List Ptr
try_push c cs = if ltb (length cs) register_cap then cs ++ c ∷ [] else cs

unfoldable pub register_client : Ptr → System → System
register_client c s = record s { registering = try_push c s.registering }

unfoldable pub unregister_client : Ptr → System → System
unregister_client c s = record s { unregistering = try_push c s.unregistering }

-- `client.Commands <- cmd`, which waits while the channel is full.
pub submit : Ptr → Command → System → Option System
submit c cmd s =
    if ltb (length (s.inbox c)) inbox_cap
    then some (record s { inbox = set_at c (s.inbox c ++ cmd ∷ []) s.inbox })
    else none

-- consumeCommands: `cmd, ok := <-client.Commands`; nothing closes this channel.
pub fetch_from : Ptr → ℕ → List Command → System → Option System
fetch_from c (suc n) (cmd ∷ cmds) s = some (record s {
  waiting = set_at c n s.waiting;
  inbox = set_at c cmds s.inbox;
  holding = set_at c (s.holding c ++ cmd ∷ []) s.holding;
})
fetch_from c zero cmds s = none
fetch_from c (suc n) [] s = none

-- consumeCommands: `h.commands <- clientCommand{...}`, which waits while the channel is full.
pub hand_over : Ptr → Option (Command × List Command) → System → Option System
hand_over c none s = none
hand_over c (some (cmd, cmds)) s =
    if ltb (length s.queued) commands_cap
    then some (record s {
      queued = s.queued ++ (c, cmd) ∷ [];
      holding = set_at c cmds s.holding;
      waiting = set_at c (s.waiting c + 1) s.waiting;
    })
    else none

module _ (svc : Option CallService) where
  -- `case client := <-h.register`, with `go h.consumeCommands(ctx, client)`.
  take_registration : List Ptr → System → Option System
  unfolding after_loop
  take_registration [] s = none
  take_registration (c ∷ cs) s =
      after_loop (step svc (Loop.registers c) s.hub) (λ h. record s {
        hub = h;
        registering = cs;
        waiting = set_at c (s.waiting c + 1) s.waiting;
      })

  take_unregistration : List Ptr → System → Option System
  unfolding after_loop
  take_unregistration [] s = none
  take_unregistration (c ∷ cs) s =
      after_loop (step svc (Loop.unregisters c) s.hub)
        (λ h. record s { hub = h; unregistering = cs })

  take_command : List (Ptr × Command) → System → Option System
  unfolding after_loop
  take_command [] s = none
  take_command ((c, cmd) ∷ q) s =
      after_loop (step svc (Loop.commands c cmd) s.hub)
        (λ h. record s { hub = h; queued = q; handled = s.handled ++ (c, cmd) ∷ [] })

  -- One act: `none` if it has to wait, or if the loop does not come out of it.
  unfoldable pub perform : Act → System → Option System
  unfolding submit fetch_from hand_over pick take_registration take_unregistration take_command
  perform (registers c) s = some (register_client c s)
  perform (unregisters c) s = some (unregister_client c s)
  perform (submits c cmd) s = submit c cmd s
  perform (writes c) s = some (record s { hub = set_client c (take_oldest (s.hub.heap c)) s.hub })
  perform (identifies c user name guest) s =
      let x : Client = s.hub.heap c in
      some (record s {
        hub = set_client c (record x { user_id = user; name = name; is_guest = guest }) s.hub;
      })
  perform (fetches c) s = fetch_from c (s.waiting c) (s.inbox c) s
  perform (hands c n) s = hand_over c (pick n (s.holding c)) s
  perform takes_registration s = take_registration s.registering s
  perform takes_unregistration s = take_unregistration s.unregistering s
  perform takes_command s = take_command s.queued s

  -- A schedule: any order of acts in which none has to wait.
  unfoldable pub perform_all : List Act → System → Option System
  perform_all [] s = some s
  perform_all (a ∷ acts) s = elim (perform a s) [ none ↦ none | some t ↦ perform_all acts t ]
