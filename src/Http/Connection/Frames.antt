-- ===== src/Http/Connection/Frames.antt =====
-- internal/transport/http and internal/core together: the write loop writes what the hub sends.
use wirechat_server.Common.{◌≡◌, refl, true, Option, List, [], ◌∷◌, All, is_some, arith}
use wirechat_server.Hub.Types.{Ptr, Event, EventKind, is_complete}
use wirechat_server.Hub.{Hub}
use wirechat_server.Hub.CallCommands.{CallService}
use wirechat_server.Hub.Served.{Does, Does-mono}
use wirechat_server.Hub.Progress.{IsSound, AllHonest, Does-Then, run-IsSound}
use wirechat_server.Hub.Loop.{Input, run}
use wirechat_server.Hub.Complete.{AllComplete, IsComplete}
use wirechat_server.Hub.Complete.Runs.{run-IsComplete}
use wirechat_server.Http.Mapper.{outbound_from_event}

-- The mapper makes a message of every event that has what its kind needs.
outbound_complete :
    (k : EventKind) (e : Event)
    → e.kind ≡ k
    → is_complete e ≡ true
    → is_some (outbound_from_event e) ≡ true
unfolding outbound_from_event
outbound_complete k e q c = ground arith

abbrev pub Written : List Event → Type 0
Written = All (λ e. is_some (outbound_from_event e) ≡ true)

pub complete-Written : (es : List Event) → AllComplete es → Written es
complete-Written [] a = tt
complete-Written (e ∷ es) (c, a) = (outbound_complete e.kind e refl c, complete-Written es a)

-- Let the hub be well-formed and served, and let every event in a channel, or taken from one, have
-- what its kind needs (a call event its call, the join event its credentials). Then after every
-- sequence of inputs of which each is honest at its turn, with any call service, every event in the
-- channel of a client, and every event that its write loop has taken, is one of which the mapper
-- makes a message: it follows no nil pointer, which would end the server.
pub run-Written :
    (svc : Option CallService) (is : List Input) (h : Hub) (c : Ptr)
    → IsSound h
    → AllHonest svc is h
    → IsComplete h
    → Does (λ k. Written (k.heap c).events × Written (k.heap c).written) (run svc is h)
run-Written svc is h c s a e =
    Does-mono (λ k. IsSound k × IsComplete k) _ _
      (λ k t. (complete-Written _ (t.1 c).0, complete-Written _ (t.1 c).1))
      (Does-Then IsSound IsComplete _ (run-IsSound svc is h s a) (run-IsComplete svc is h e))
