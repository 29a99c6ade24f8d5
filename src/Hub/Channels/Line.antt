-- ===== src/Hub/Channels/Line.antt =====
-- internal/core/hub.go: the commands of one client on their way to the loop.
use mathlib.Core.List.{append_assoc, append-nil}
use wirechat_server.Common.{
  ◌≡◌, ◌≤◌, refl, sym, ap, ℕ, zero, suc, ◌+◌, Option, none, some, List, [], ◌∷◌, ◌++◌, length, ◌==◌,
  if◌then◌else◌, arith, Bool-cases, inl, inr, length-append, false, ==_iff,
}
use wirechat_server.Hub.Types.{Ptr, Command}
use wirechat_server.Hub.Channels.{
  System, Act, registers, fetches, submits, hands, submit, fetch_from, hand_over, pick,
}

-- The commands of a client among those of all.
abbrev pub of : Ptr → List (Ptr × Command) → List Command
of c [] = []
of c ((d, cmd) ∷ q) = if d == c then cmd ∷ of c q else of c q

abbrev pub count : Ptr → List Ptr → ℕ
count c [] = 0
count c (d ∷ ds) = if d == c then count c ds + 1 else count c ds

-- The commands of a client that are on their way, behind those that the loop has handled.
abbrev pub line : Ptr → System → List Command
line c s = of c s.handled ++ (of c s.queued ++ (s.holding c ++ s.inbox c))

-- Those of them that have left the client's goroutines.
abbrev pub passed : Ptr → System → List Command
passed c s = of c s.handled ++ of c s.queued

-- What a schedule puts into the client's channel, in its order, and how often it registers it.
unfoldable pub submitted : Ptr → List Act → List Command
submitted c [] = []
submitted c (submits d cmd ∷ acts) = if d == c then cmd ∷ submitted c acts else submitted c acts
submitted c (_ ∷ acts) = submitted c acts

unfoldable pub registrations : Ptr → List Act → ℕ
registrations c [] = 0
registrations c (registers d ∷ acts) =
    if d == c then registrations c acts + 1 else registrations c acts
registrations c (_ ∷ acts) = registrations c acts

-- The goroutines that take commands of the client, and its registrations that are still to be taken.
abbrev pub consumers : Ptr → System → ℕ
consumers c s = s.waiting c + length (s.holding c) + count c s.registering

abbrev pub submits_to : Ptr → Act → List Command
submits_to c a = submitted c (a ∷ [])

pub of-append : (c : Ptr) (p q : List (Ptr × Command)) → of c (p ++ q) ≡ of c p ++ of c q
of-append c [] q = refl
of-append c ((d, cmd) ∷ p) q = ground (arith, of-append c p q)

pub count-append : (c : Ptr) (p q : List Ptr) → count c (p ++ q) ≡ count c p + count c q
count-append c [] q = omega arith
count-append c (d ∷ p) q = ground (arith, count-append c p q)

-- A command joins the end of the line.
joins_line : (a b h i x : List Command) → a ++ (b ++ (h ++ (i ++ x))) ≡ (a ++ (b ++ (h ++ i))) ++ x
joins_line a b h i x = simp append_assoc

-- What one act does to the line of a client, and to its consumers.
pub record Keeps (c : Ptr) (a : Act) (s t : System) : Type 0 where
  pub lined : line c t ≡ line c s ++ submits_to c a
  pub consumed : consumers c t ≤ consumers c s + registrations c (a ∷ [])
  pub quiet : s.holding c ≡ [] → passed c t ≡ passed c s

pub submit-Keeps :
    (c d : Ptr) (cmd : Command) (s t : System)
    → submit d cmd s ≡ some t
    → Keeps c (submits d cmd) s t
unfolding submit submitted registrations
submit-Keeps c d cmd s t e = record {
  lined = ground (
    arith,
    append-nil (line c s),
    joins_line (of c s.handled) (of c s.queued) (s.holding c) (s.inbox c) (cmd ∷ []),
  );
  consumed = ground arith;
  quiet = λ q. ground arith;
}

pub fetch_from-Keeps :
    (c d : Ptr) (n : ℕ) (cmds : List Command) (s t : System)
    → s.waiting d ≡ n
    → s.inbox d ≡ cmds
    → fetch_from d n cmds s ≡ some t
    → Keeps c (fetches d) s t
unfolding fetch_from submitted registrations
fetch_from-Keeps c d zero cmds s t w i e = cc
fetch_from-Keeps c d (suc n) [] s t w i e = cc
fetch_from-Keeps c d (suc n) (x ∷ xs) s t w i e = record {
  lined = ground (arith, append-nil (line c s), append_assoc (s.holding c) (x ∷ []) xs);
  consumed = ground (arith, length-append (s.holding d) (x ∷ []));
  quiet = λ q. ground arith;
}

-- A goroutine of another client.
hand_over-other :
    (c d : Ptr) (n : ℕ) (o : Option (Command × List Command)) (s t : System)
    → (d == c) ≡ false
    → hand_over d o s ≡ some t
    → Keeps c (hands d n) s t
unfolding hand_over submitted registrations
hand_over-other c d n none s t b e = cc
hand_over-other c d n (some (cmd, cmds)) s t b e = record {
  lined = ground (
    arith,
    b,
    append-nil (line c s),
    append-nil (of c s.queued),
    of-append c s.queued ((d, cmd) ∷ []),
  );
  consumed = ground (arith, b);
  quiet = λ q. ground (arith, b, append-nil (of c s.queued), of-append c s.queued ((d, cmd) ∷ []));
}

-- The goroutine of the client, which holds one command.
hand_over-own :
    (c : Ptr) (n : ℕ) (x : Command) (s t : System)
    → s.holding c ≡ x ∷ []
    → hand_over c (some (x, [])) s ≡ some t
    → Keeps c (hands c n) s t
unfolding hand_over submitted registrations
hand_over-own c n x s t q e = record {
  lined = ground (
    arith,
    q,
    append-nil (line c s),
    append_assoc (of c s.queued) (x ∷ []) (s.inbox c),
    of-append c s.queued ((c, x) ∷ []),
  );
  consumed = ground (arith, q);
  quiet = λ p. ground (arith, q, p);
}

pub hand_over-Keeps :
    (c d : Ptr) (n : ℕ) (s t : System)
    → consumers c s ≤ 1
    → hand_over d (pick n (s.holding d)) s ≡ some t
    → Keeps c (hands d n) s t
unfolding hand_over pick
hand_over-Keeps c d n s t one e = elim (Bool-cases (d == c)) [
  | inr b ↦ hand_over-other c d n (pick n (s.holding d)) s t b e
  | inl b ↦ rw ((==_iff d c).0 b) (own n (s.holding c) refl (rw (sym ((==_iff d c).0 b)) e))
]
  where
    own :
        (m : ℕ) (l : List Command)
        → s.holding c ≡ l
        → hand_over c (pick m l) s ≡ some t
        → Keeps c (hands c n) s t
    own m [] q f = cc
    own zero (x ∷ []) q f = hand_over-own c n x s t q f
    own (suc m) (x ∷ []) q f = cc
    own m (x ∷ y ∷ l) q f = absurd (omega (arith, ap (length {A = Command}) q))
