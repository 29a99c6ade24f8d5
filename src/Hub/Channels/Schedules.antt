-- ===== src/Hub/Channels/Schedules.antt =====
-- internal/core/hub.go: schedules of the goroutines around the loop, seen from one client.
use mathlib.Core.Option.{some-injective}
use mathlib.Core.List.{append_assoc, append-nil}
use wirechat_server.Common.{
  ◌≡◌, ◌≤◌, refl, sym, ap, ◌∙◌, subst, ◌+◌, Option, some, List, [], ◌∷◌, ◌++◌, length, arith,
  Option-cases, inl, inr, length-append,
}
use wirechat_server.Hub.Types.{Ptr, Command}
use wirechat_server.Hub.CallCommands.{CallService}
use wirechat_server.Hub.Channels.{
  System, Act, registers, submits, perform, perform_all, register_client, register_cap, inbox_cap,
}
use wirechat_server.Hub.Channels.Bounds.{Fits, perform_all-Fits}
use wirechat_server.Hub.Channels.Order.{perform-Keeps}
use wirechat_server.Hub.Channels.Line.{
  of, line, submitted, registrations, consumers, passed, submits_to,
}

submitted-cons :
    (c : Ptr) (a : Act) (acts : List Act)
    → submitted c (a ∷ acts) ≡ submits_to c a ++ submitted c acts
unfolding submitted
submitted-cons c (submits d cmd) acts = ground arith
submitted-cons c a acts = refl

registrations-cons :
    (c : Ptr) (a : Act) (acts : List Act)
    → registrations c (a ∷ acts) ≡ registrations c (a ∷ []) + registrations c acts
unfolding registrations
registrations-cons c (registers d) acts = ground arith
registrations-cons c a acts = omega arith

nil-left : (xs ys : List Command) → xs ++ ys ≡ [] → xs ≡ []
nil-left [] ys e = refl
nil-left (x ∷ xs) ys e = cc

length_four :
    (a b h i : List Command) → length (a ++ (b ++ (h ++ i))) ≡ length (a ++ b) + length h + length i
length_four a b h i = ground (
  arith,
  length-append a (b ++ (h ++ i)),
  length-append b (h ++ i),
  length-append h i,
  length-append a b,
)

module _ (svc : Option CallService) (c : Ptr) where
  -- If at most one goroutine ever takes the commands of a client (it has at most one to begin with,
  -- or is registered at most once on the way), then after every schedule that the hub's loop
  -- survives the commands of the client that the loop has handled, then those in the hub's channel,
  -- then the one that the goroutine holds, then those in the client's channel, are the ones from
  -- the beginning and the ones that the client has submitted, in this order: none is lost, doubled,
  -- or overtaken.
  pub perform_all-InOrder :
      (acts : List Act) (s t : System)
      → consumers c s + registrations c acts ≤ 1
      → perform_all svc acts s ≡ some t
      → of c t.handled ++ (of c t.queued ++ (t.holding c ++ t.inbox c))
        ≡ line c s ++ submitted c acts
  unfolding perform_all
  perform_all-InOrder [] s t one e =
      subst (λ (x : System). line c x ≡ line c s ++ submitted c []) (some-injective s t e)
        (unfold submitted in sym (append-nil (line c s)))
  perform_all-InOrder (a ∷ acts) s t one e = elim (Option-cases (perform svc a s)) [
    | inl n ↦ ground (arith, n)
    | inr (u, q) ↦
        let each = perform-Keeps svc c a s u (omega (arith, registrations-cons c a acts)) q in
        perform_all-InOrder acts u t (omega (arith, registrations-cons c a acts, each.consumed))
          (ground (arith, q))
        ∙ ap (λ (l : List Command). l ++ submitted c acts) each.lined
        ∙ append_assoc (line c s) (submits_to c a) (submitted c acts)
        ∙ ap (λ (l : List Command). line c s ++ l) (sym (submitted-cons c a acts))
  ]

  consumers-le :
      (acts : List Act) (s t : System)
      → consumers c s + registrations c acts ≤ 1
      → perform_all svc acts s ≡ some t
      → consumers c t ≤ consumers c s + registrations c acts
  unfolding perform_all
  consumers-le [] s t one e = ground (arith, e)
  consumers-le (a ∷ acts) s t one e = elim (Option-cases (perform svc a s)) [
    | inl n ↦ ground (arith, n)
    | inr (u, q) ↦
        let each = perform-Keeps svc c a s u (omega (arith, registrations-cons c a acts)) q in
        omega (
          arith,
          registrations-cons c a acts,
          each.consumed,
          consumers-le acts u t (omega (arith, registrations-cons c a acts, each.consumed))
              (ground (arith, q)),
        )
  ]

  -- Without a goroutine that takes them, no command of the client passes.
  passed-Keeps :
      (acts : List Act) (s t : System)
      → consumers c s + registrations c acts ≡ 0
      → perform_all svc acts s ≡ some t
      → passed c t ≡ passed c s
  unfolding perform_all
  passed-Keeps [] s t z e = ap (passed c) (sym (some-injective s t e))
  passed-Keeps (a ∷ acts) s t z e = elim (Option-cases (perform svc a s)) [
    | inl n ↦ ground (arith, n)
    | inr (u, q) ↦
        let each = perform-Keeps svc c a s u (omega (arith, registrations-cons c a acts)) q in
        passed-Keeps acts u t (omega (arith, registrations-cons c a acts, each.consumed))
          (ground (arith, q))
        ∙ each.quiet (ground (arith, z))
  ]

  -- RegisterClient drops a client while the channel of registrations is full. If no channel holds
  -- more than its capacity, that channel is full, no command and no goroutine of the client is
  -- there yet, and the client is not registered again, then the call changes nothing, and after
  -- every schedule that follows the loop has handled no command of the client, and the client has
  -- got rid of at most 8: a ninth waits for ever.
  pub register_client-Drops :
      (acts : List Act) (s t : System)
      → Fits c s
      → length s.registering ≡ register_cap
      → consumers c s + registrations c acts ≡ 0
      → line c s ≡ []
      → perform_all svc acts (register_client c s) ≡ some t
      → (register_client c s ≡ s) × (of c t.handled ≡ []) × (length (submitted c acts) ≤ inbox_cap)
  unfolding register_client
  register_client-Drops acts s t f full z new e =
      let same : register_client c s ≡ s = ground (arith, full) in
      let ran : perform_all svc acts s ≡ some t = rw same at e in
      let passed_none = passed-Keeps acts s t z ran in
      let lined = perform_all-InOrder acts s t (omega arith) ran in
      let fits = perform_all-Fits svc c acts s t f ran in
      (
        same,
        nil-left (of c t.handled) (of c t.queued) (
            passed_none
            ∙ nil-left (passed c s) _ (append_assoc (of c s.handled) (of c s.queued) _ ∙ new)),
        omega (
          arith,
          fits.inbox,
          consumers-le acts s t (omega arith) ran,
          ap (length {A = Command}) lined,
          ap (length {A = Command}) passed_none,
          ap (length {A = Command}) new,
          length_four (of c t.handled) (of c t.queued) (t.holding c) (t.inbox c),
          length_four (of c s.handled) (of c s.queued) (s.holding c) (s.inbox c),
          length-append (line c s) (submitted c acts),
        ),
      )
