-- ===== src/App/Calls.antt =====
-- internal/core/hub.go over internal/service/calls/service.go: what no run of the hub does to calls.
use wirechat_server.Common.{ℕ, String, Option, some, List, subst, arith}
use mathlib.Core.Option.{some-injective}
use wirechat_server.Effect.{after, after-wrap}
use wirechat_server.Engine.{Engine}
use wirechat_server.Store.Calls.Rows.{Follows-refl}
use wirechat_server.Store.Calls as Table
use wirechat_server.Store.World.{World}
use wirechat_server.Store.Users.{get_user_by_id}
use wirechat_server.Store.Rooms.{get_room_by_id, list_members}
use wirechat_server.Calls.{Error, get_call, get_target_user, list_room_members, get_room_info}
use wirechat_server.Calls.Lifecycle.{Steps, call_row}
use wirechat_server.Calls.History.{
  Request, directs, rooms, joins, ends, leaves, rejects, serve, serve-Steps, Follows-trans,
}
use wirechat_server.Calls.Running.{IsOrderly, serve-IsOrderly}
use wirechat_server.Hub.Types.{Ptr}
use wirechat_server.Hub.Progress.{IsSound, AllHonest, Does-Then, run-IsSound}
use wirechat_server.Hub.Served.{Does, Does-mono}
use wirechat_server.Hub.{Hub}
use wirechat_server.Hub.CallCommands.{CallService}
use wirechat_server.Hub.Logic.{Fitting}
use wirechat_server.Hub.Frame.{Then}
use wirechat_server.Hub.Loop.{Input, run}
use wirechat_server.Hub.Tables.{SameCalls}
use wirechat_server.Hub.Tables.Runs.{Allows, along, run-Along}
use wirechat_server.App.{call_service}

-- The methods that only read.
get_call-calls : (id : String) (w : World) → SameCalls w (after (get_call id w))
unfolding get_call Table.get_call
get_call-calls id w = ground arith

get_target_user-calls : (u : ℕ) (w : World) → SameCalls w (after (get_target_user u w))
unfolding get_target_user get_user_by_id
get_target_user-calls u w = ground arith

list_room_members-calls : (r : ℕ) (w : World) → SameCalls w (after (list_room_members r w))
unfolding list_room_members list_members
list_room_members-calls r w = ground arith

get_room_info-calls : (r : ℕ) (w : World) → SameCalls w (after (get_room_info r w))
unfolding get_room_info get_room_by_id
get_room_info-calls r w = ground arith

module _ (wrapped : Error → String) (engine : Option Engine) where
  -- The service goes along with whatever its writing methods go along with.
  service-Fitting :
      (R : World → World → Type 0) (a : Allows R)
      → ((r : Request) (w : World) → R w (serve engine r w))
      → (c : Ptr) → Fitting (along R a c) (call_service wrapped engine)
  unfolding call_service serve
  service-Fitting R a writes c = record {
    direct_fits = λ u v w. rw (after-wrap _ _ w) (writes (directs u v) w);
    room_fits = λ u r w. rw (after-wrap _ _ w) (writes (rooms u r) w);
    call_fits = λ id w. rw (after-wrap _ _ w) (a.same w _ (get_call-calls id w));
    join_fits = λ id u w. rw (after-wrap _ _ w) (writes (joins id u) w);
    end_fits = λ id u w. rw (after-wrap _ _ w) (writes (ends id u) w);
    reject_fits = λ id u reason w. rw (after-wrap _ _ w) (writes (rejects id u reason) w);
    leave_fits = λ id u w. rw (after-wrap _ _ w) (writes (leaves id u) w);
    target_fits = λ u w. rw (after-wrap _ _ w) (a.same w _ (get_target_user-calls u w));
    members_fit = λ r w. rw (after-wrap _ _ w) (a.same w _ (list_room_members-calls r w));
    info_fits = λ r w. rw (after-wrap _ _ w) (a.same w _ (get_room_info-calls r w));
  }

  -- What a run may do to the calls: at most one is running in each room, if it was so, and each moves
  -- forward.
  abbrev Tidy : World → World → Type 0
  Tidy w v = (IsOrderly w → IsOrderly v) × ((id : String) → Steps id w v)

  Tidy-Allows : Allows Tidy
  Tidy-Allows = record {
    same = λ w v e. rw e (λ h. h, λ id. Follows-refl (call_row id w));
    trans = λ u v w p q.
        (λ h. q.0 (p.0 h), λ id. Follows-trans (call_row id u) (call_row id v) _ (p.1 id) (q.1 id));
  }

  run-Along_service :
      (is : List Input) (h : Hub)
      → Then (λ k. Tidy h.world k.world) (run (some (call_service wrapped engine)) is h)
  run-Along_service is h =
      run-Along Tidy Tidy-Allows (some (call_service wrapped engine))
        (λ c s e.
          subst (λ (x : CallService). Fitting (along Tidy Tidy-Allows c) x)
            (some-injective (call_service wrapped engine) s e)
            (service-Fitting Tidy Tidy-Allows
              (λ r w. (serve-IsOrderly engine r w, λ id. serve-Steps engine id r w)) c))
        is h

  -- With the calls service behind the hub, with or without an engine: from a well-formed and served
  -- hub with a store in which call ids are distinct and no room has two running calls, every
  -- sequence of inputs of which each is honest at its turn (a client registers with an open
  -- channel; a command comes from a client of the hub, and the client's write loop runs until the
  -- command is handled; and a hello gives no other user id to a client that is a user's entry;
  -- otherwise write loops take events and end, and hellos and unregistrations come, at any time) is
  -- processed to its end, wherever the driver fails. Then the hub is well-formed and served, call
  -- ids are distinct and no room has two running calls, and a call that was stored still is, with
  -- its type, initiator and room, and a status that has only moved forward.
  pub run-Tidy :
      (id : String) (is : List Input) (h : Hub)
      → IsSound h
      → AllHonest (some (call_service wrapped engine)) is h
      → IsOrderly h.world
      → Does
          (λ k. IsSound k × IsOrderly k.world × Steps id h.world k.world)
          (run (some (call_service wrapped engine)) is h)
  run-Tidy id is h s a o =
      Does-mono (λ k. IsSound k × Tidy h.world k.world) _ _ (λ k (t, u). (t, u.0 o, u.1 id))
        (Does-Then IsSound (λ k. Tidy h.world k.world) _
          (run-IsSound (some (call_service wrapped engine)) is h s a) (run-Along_service is h))
