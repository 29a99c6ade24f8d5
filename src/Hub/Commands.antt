-- ===== src/Hub/Commands.antt =====
-- internal/core/hub.go: the commands of a call only send to clients.
use wirechat_server.Common.{
  ℕ, ◌≡◌, refl, String, true, ◌||◌, Option, none, some, List, [], ◌∷◌, ◌==◌, str_eq,
}
use wirechat_server.Effect.{Outcome, ok, err, after}
use wirechat_server.Engine.{JoinInfo}
use wirechat_server.Store.Types.{Call}
use wirechat_server.Store.World.{World}
use wirechat_server.Hub.Types.{
  is_complete, Ptr, CallCommand, Event, Command, send_room_message, join_room, leave_room,
  call_invite, call_accept, call_reject, call_join, call_leave, call_end,
}
use wirechat_server.Hub.{Hub, Go, done, send, in_world}
use wirechat_server.Hub.CallCommands.{
  CallService, notify, guarded, invite, accept, reject, join, leave_from, end_for_all,
}
use wirechat_server.Hub.CallCommands as Calls
use wirechat_server.Hub.Loop.{handle_command}
use wirechat_server.Hub.Logic.{is_call, Logic, Fitting}

module _ (c : Ptr) (l : Logic c) where
  kept_in : (w : World) (h : Hub) → l.Fits h.world w → l.Holds h (done (in_world h w))
  kept_in w h f = l.moves w h (done (in_world h w)) f (l.stays (in_world h w))

  send_in :
      (e : Event) (w : World) (h : Hub)
      → is_complete e ≡ true
      → l.Fits h.world w
      → l.Holds h (send c e (in_world h w))
  send_in e w h g f = l.moves w h (send c e (in_world h w)) f (l.sends e g (in_world h w))

  notify_in :
      (u : ℕ) (e : Event) (w : World) (h : Hub)
      → is_complete e ≡ true
      → l.Fits h.world w
      → l.Holds h (notify u e (in_world h w))
  notify_in u e w h g f =
      l.moves w h (notify u e (in_world h w)) f (l.notifies u e g (in_world h w))

  notify_members-Holds :
      (self : ℕ) (us : List ℕ) (e : Event)
      → is_complete e ≡ true
      → (h : Hub) → l.Holds h (Calls.notify_members self us e h)
  unfolding Calls.notify_members
  notify_members-Holds self [] e g h = l.stays h
  notify_members-Holds self (u ∷ us) e g h =
      l.chains h _ (Calls.notify_members self us e)
        (l.chooses h (u == self) _ _ (l.stays h) (l.notifies u e g h))
        (notify_members-Holds self us e g)

  module _ (svc : CallService) (fit : Fitting l svc) (cmd : CallCommand) where
    -- Each lemma is about what the handler does with the result of a call that fits.
    invited-Holds :
        (r : Outcome World String Call) (h : Hub)
        → l.Fits h.world (after r)
        → l.Holds h (Calls.invited svc c cmd r h)
    unfolding Calls.invited
    invited-Holds (err e w) h f = send_in _ w h refl f
    invited-Holds (ok call w) h f =
        l.chains h _ (notify cmd.to_user_id _)
          (send_in _ (after (svc.get_target_user cmd.to_user_id w)) h refl
            (l.follows h.world w _ f (fit.target_fits cmd.to_user_id w)))
          (l.notifies cmd.to_user_id _ refl)

    invited_members-Holds :
        (call : Call) (name : String) (r : Outcome World String (List ℕ)) (h : Hub)
        → l.Fits h.world (after r)
        → l.Holds h (Calls.invited_members svc c cmd call name r h)
    unfolding Calls.invited_members
    invited_members-Holds call name (err e w) h f = send_in _ w h refl f
    invited_members-Holds call name (ok us w) h f =
        l.moves w h _ f (notify_members-Holds _ us _ refl (in_world h w))

    invited_room-Holds :
        (r : Outcome World String Call) (h : Hub)
        → l.Fits h.world (after r)
        → l.Holds h (Calls.invited_room svc c cmd r h)
    unfolding Calls.invited_room
    invited_room-Holds (err e w) h f = send_in _ w h refl f
    invited_room-Holds (ok call w) h f =
        let named : World = after (svc.get_room_info cmd.room_id w) in
        invited_members-Holds call _ _ h (
          l.follows h.world named _ (l.follows h.world w named f (fit.info_fits cmd.room_id w))
            (fit.members_fit cmd.room_id named))

    pub invite-Holds : (h : Hub) → l.Holds h (invite svc c cmd h)
    unfolding invite
    invite-Holds h =
        l.chooses h (str_eq cmd.call_type "direct") _ _
          (invited-Holds _ h (fit.direct_fits _ cmd.to_user_id h.world))
          (l.chooses h (str_eq cmd.call_type "room") _ _
            (invited_room-Holds _ h (fit.room_fits _ cmd.room_id h.world)) (l.stays h))

    accepted_initiator-Holds :
        (u : ℕ) (r : Outcome World String JoinInfo) (h : Hub)
        → l.Fits h.world (after r)
        → l.Holds h (Calls.accepted_initiator svc c cmd u r h)
    unfolding Calls.accepted_initiator
    accepted_initiator-Holds u (err e w) h f = kept_in w h f
    accepted_initiator-Holds u (ok info w) h f = notify_in u _ w h refl f

    accepted_call-Holds :
        (info : JoinInfo) (r : Outcome World String Call) (h : Hub)
        → l.Fits h.world (after r)
        → l.Holds h (Calls.accepted_call svc c cmd info r h)
    unfolding Calls.accepted_call
    accepted_call-Holds info (err e w) h f = send_in _ w h refl f
    accepted_call-Holds info (ok call w) h f =
        l.chains h _ _
          (l.chains h _ (notify call.initiator_user_id _) (send_in _ w h refl f)
            (l.notifies call.initiator_user_id _ refl))
          (λ k.
            accepted_initiator-Holds call.initiator_user_id _ k
              (fit.join_fits cmd.call_id call.initiator_user_id k.world))

    accepted_join-Holds :
        (r : Outcome World String JoinInfo) (h : Hub)
        → l.Fits h.world (after r)
        → l.Holds h (Calls.accepted_join svc c cmd r h)
    unfolding Calls.accepted_join
    accepted_join-Holds (err e w) h f = send_in _ w h refl f
    accepted_join-Holds (ok info w) h f =
        accepted_call-Holds info _ h (l.follows h.world w _ f (fit.call_fits cmd.call_id w))

    pub accept-Holds : (h : Hub) → l.Holds h (accept svc c cmd h)
    unfolding accept
    accept-Holds h = accepted_join-Holds _ h (fit.join_fits cmd.call_id _ h.world)

    rejected-Holds :
        (call : Call) (r : Outcome World String (Unit {0})) (h : Hub)
        → l.Fits h.world (after r)
        → l.Holds h (Calls.rejected svc c cmd call r h)
    unfolding Calls.rejected
    rejected-Holds call (err e w) h f = send_in _ w h refl f
    rejected-Holds call (ok t w) h f =
        l.chains h _ (notify call.initiator_user_id _)
          (notify_in call.initiator_user_id _ w h refl f) (l.notifies call.initiator_user_id _ refl)

    reject_found-Holds :
        (r : Outcome World String Call) (h : Hub)
        → l.Fits h.world (after r)
        → l.Holds h (Calls.reject_found svc c cmd r h)
    unfolding Calls.reject_found
    reject_found-Holds (err e w) h f = send_in _ w h refl f
    reject_found-Holds (ok call w) h f =
        rejected-Holds call _ h
          (l.follows h.world w _ f (fit.reject_fits cmd.call_id _ cmd.reason w))

    pub reject-Holds : (h : Hub) → l.Holds h (reject svc c cmd h)
    unfolding reject
    reject-Holds h = reject_found-Holds _ h (fit.call_fits cmd.call_id h.world)

    joined_call-Holds :
        (r : Outcome World String JoinInfo) (h : Hub)
        → l.Fits h.world (after r)
        → l.Holds h (Calls.joined_call svc c cmd r h)
    unfolding Calls.joined_call
    joined_call-Holds (err e w) h f = send_in _ w h refl f
    joined_call-Holds (ok info w) h f = send_in _ w h refl f

    pub join-Holds : (h : Hub) → l.Holds h (join svc c cmd h)
    unfolding join
    join-Holds h = joined_call-Holds _ h (fit.join_fits cmd.call_id _ h.world)

    left_call-Holds :
        (r : Outcome World String (Unit {0})) (h : Hub)
        → l.Fits h.world (after r)
        → l.Holds h (Calls.left_call svc c cmd r h)
    unfolding Calls.left_call
    left_call-Holds (err e w) h f = send_in _ w h refl f
    left_call-Holds (ok t w) h f = kept_in w h f

    pub leave_from-Holds : (h : Hub) → l.Holds h (leave_from svc c cmd h)
    unfolding leave_from
    leave_from-Holds h = left_call-Holds _ h (fit.leave_fits cmd.call_id _ h.world)

    ended_now-Holds :
        (call : Call) (r : Outcome World String (Unit {0})) (h : Hub)
        → l.Fits h.world (after r)
        → l.Holds h (Calls.ended_now svc c cmd call r h)
    unfolding Calls.ended_now
    ended_now-Holds call (err e w) h f = send_in _ w h refl f
    ended_now-Holds call (ok t w) h f =
        l.chooses h (call.initiator_user_id == (h.heap c).user_id) _ _ (kept_in w h f)
          (notify_in call.initiator_user_id _ w h refl f)

    end_found-Holds :
        (r : Outcome World String Call) (h : Hub)
        → l.Fits h.world (after r)
        → l.Holds h (Calls.end_found svc c cmd r h)
    unfolding Calls.end_found
    end_found-Holds (err e w) h f = send_in _ w h refl f
    end_found-Holds (ok call w) h f =
        ended_now-Holds call _ h (l.follows h.world w _ f (fit.end_fits cmd.call_id _ w))

    pub end_for_all-Holds : (h : Hub) → l.Holds h (end_for_all svc c cmd h)
    unfolding end_for_all
    end_for_all-Holds h = end_found-Holds _ h (fit.call_fits cmd.call_id h.world)

  module _ (svc : Option CallService) (fits : (s : CallService) → svc ≡ some s → Fitting l s) where
    guarded-Holds :
        (handle : CallService → Hub → Go Hub) (h : Hub)
        → ((s : CallService) → Fitting l s → l.Holds h (handle s h))
        → l.Holds h (guarded svc c handle h)
    unfolding guarded
    guarded-Holds handle h each =
        elim svc
            as (λ o.
              ((s : CallService) → o ≡ some s → Fitting l s) → l.Holds h (guarded o c handle h)) [
                | none ↦ λ _. l.sends _ refl h
                | some s ↦ λ fs.
                    l.chooses h ((h.heap c).is_guest || ((h.heap c).user_id == 0)) _ _
                      (l.sends _ refl h) (each s (fs s refl))
              ]
          fits

    -- The commands on calls, as the loop handles them.
    pub handle_command-Holds :
        (cmd : Command) (h : Hub) → is_call cmd ≡ true → l.Holds h (handle_command svc c cmd h)
    unfolding handle_command
    handle_command-Holds (join_room n) h e = cc
    handle_command-Holds (leave_room n) h e = cc
    handle_command-Holds (send_room_message n m) h e = cc
    handle_command-Holds (call_invite x) h e = guarded-Holds _ h (λ s fit. invite-Holds s fit x h)
    handle_command-Holds (call_accept x) h e = guarded-Holds _ h (λ s fit. accept-Holds s fit x h)
    handle_command-Holds (call_reject x) h e = guarded-Holds _ h (λ s fit. reject-Holds s fit x h)
    handle_command-Holds (call_join x) h e = guarded-Holds _ h (λ s fit. join-Holds s fit x h)
    handle_command-Holds (call_leave x) h e =
        guarded-Holds _ h (λ s fit. leave_from-Holds s fit x h)
    handle_command-Holds (call_end x) h e = guarded-Holds _ h (λ s fit. end_for_all-Holds s fit x h)
