-- ===== src/Hub/Stale.antt =====
-- internal/core/hub.go: a user's entry that outlives its client.
use wirechat_server.Common.{
  ℕ, ◌≡◌, ◌≢◌, refl, String, Bool, true, not, false, some, List, [], ◌∷◌, arith, ==_iff,
  if◌then◌else◌,
}
use wirechat_server.Effect.{ok, after}
use wirechat_server.Store.Types.{Call}
use wirechat_server.Store.World.{World}
use wirechat_server.Hub.Types.{Ptr, Client, Event, CallCommand, call_invite, contains}
use wirechat_server.Hub.{
  Hub, done, panicked, ◌>>=◌, send_to_user, try_send, try_deliver, find_user, set_client, in_world,
  remove_from_hub, leave_rooms, close_client, forget,
}
use wirechat_server.Hub.CallCommands.{
  CallService, notify, invited, ringing_event, incoming_direct, or_else,
}
use wirechat_server.Hub.Loop.{
  Input, unregisters, commands, changes, identifies, changed, handle_command, step, run,
}
use wirechat_server.Hub.Progress.{find_user-remove}
use wirechat_server.Hub.Ringing.{IsUser, sent, send-sent, invite-direct}

remove_from_hub-roomless :
    (c : Ptr) (h : Hub)
    → contains c h.clients ≡ true
    → (h.heap c).is_open ≡ true
    → (h.heap c).rooms ≡ []
    → remove_from_hub c h ≡ done (forget c h)
unfolding remove_from_hub leave_rooms close_client
remove_from_hub-roomless c h e o r = go (h.heap c).rooms r
  where
    go :
        (ns : List String)
        → ns ≡ []
        → (if not (contains c h.clients) then done h else (leave_rooms c ns h >>= close_client c))
          ≡ done (forget c h)
    go ns q = rw (q, e, o) refl

-- The entry of a user is a client with a closed channel.
record Stale (u : ℕ) (c : Ptr) (h : Hub) : Type 0 where
  entry : find_user u h.user_clients ≡ some c
  closed : (h.heap c).is_open ≡ false

forget-Stale :
    (u : ℕ) (c : Ptr) (h : Hub)
    → find_user u h.user_clients ≡ some c
    → u ≢ (h.heap c).user_id
    → Stale u c (forget c h)
unfolding forget
forget-Stale u c h f n = record {
  entry = ground (
    arith,
    f,
    n,
    find_user-remove u (h.heap c).user_id h.user_clients,
    ==_iff u (h.heap c).user_id,
  );
  closed = ground arith;
}

notify-panics : (u : ℕ) (c : Ptr) (e : Event) (h : Hub) → Stale u c h → notify u e h ≡ panicked
unfolding send_to_user try_send try_deliver
notify-panics u c e h s = ground (arith, s.entry, s.closed)

module _ (svc : CallService) (c d : Ptr) (cmd : CallCommand) where
  -- An invitation of the user whose entry is stale.
  invite-panics :
      (call : Call) (w : World) (h : Hub)
      → Stale cmd.to_user_id c h
      → d ≢ c
      → (h.heap d).is_open ≡ true
      → (h.heap d).is_reading ≡ true
      → IsUser (h.heap d)
      → cmd.call_type ≡ "direct"
      → svc.create_direct_call (h.heap d).user_id cmd.to_user_id h.world ≡ ok call w
      → handle_command (some svc) d (call_invite cmd) h ≡ panicked
  unfolding invited
  invite-panics call w h s n o r u t k =
      let named = svc.get_target_user cmd.to_user_id w in
      let there : Hub = in_world h (after named) in
      let ring : Event = ringing_event call.id cmd.to_user_id (or_else named "unknown") in
      rw
        (
          invite-direct svc d cmd h u t,
          k,
          send-sent d ring there o r,
          notify-panics cmd.to_user_id c (incoming_direct call (h.heap d))
              (set_client d (sent ring (h.heap d)) there)
              (record { entry = s.entry; closed = ground (arith, s.closed, n) }),
        )
        refl

  -- A second hello, and its cost. If a client of the hub, in no room and with an open channel, is
  -- the entry of a user, and a hello makes it another user before it is unregistered, then the
  -- entry stays, and a direct call that the service creates to the first user, by another client
  -- with an open channel and a running write loop, of a user who is no guest, panics the hub.
  pub run-hello_panics :
      (v : ℕ) (name : String) (guest : Bool) (call : Call) (w : World) (is : List Input) (h : Hub)
      → contains c h.clients ≡ true
      → (h.heap c).is_open ≡ true
      → (h.heap c).rooms ≡ []
      → find_user cmd.to_user_id h.user_clients ≡ some c
      → cmd.to_user_id ≢ v
      → d ≢ c
      → (h.heap d).is_open ≡ true
      → (h.heap d).is_reading ≡ true
      → IsUser (h.heap d)
      → cmd.call_type ≡ "direct"
      → svc.create_direct_call (h.heap d).user_id cmd.to_user_id h.world ≡ ok call w
      → run
          (some svc)
          (changes c (identifies v name guest) ∷ unregisters c ∷ commands d (call_invite cmd) ∷ is)
          h
        ≡ panicked
  unfolding run step changed forget
  run-hello_panics v name guest call w is h e o r f n m p q u t k =
      let x : Client = record (h.heap c) { user_id = v; name = name; is_guest = guest } in
      let other : Hub = set_client c x h in
      let same : (forget c other).heap d ≡ h.heap d = ground (arith, m) in
      rw
        (
          remove_from_hub-roomless c other e (ground (arith, o)) (ground (arith, r)),
          invite-panics call w (forget c other)
              (forget-Stale cmd.to_user_id c other f (ground (arith, n))) m (rw same p) (rw same q)
              (rw same u) t (rw same k),
        )
        refl
