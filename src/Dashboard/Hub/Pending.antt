-- ===== src/Dashboard/Hub/Pending.antt =====
-- What a coroutine of the hub (dashboard_api/hub.py) still owes to one socket.
use distrosense.Base.{
  subst, ℕ, ◌+◌, ◌&&◌, Bool, true, false, not, List, [], ◌∷◌, ◌++◌, elem, elem-select, Eq, ◌==◌,
  if◌then◌else◌, arith, ◌≡◌, refl, ap, inl, inr, Bool-cases, distinct, any,
}
use distrosense.Dashboard.Hub.{
  Sockets, Hub, Task, replaying, casting, disconnect, disconnect_all, cast_on, replay_on, note,
  resume,
}
use distrosense.Dashboard.Hub.Distinct.{IsDistinct}

module _ (k : Sockets) ⦃e : Eq k.Socket⦄ (w : k.Frame → ℕ) (ws : k.Socket) where
  abbrev pub total : List k.Frame → ℕ
  total [] = 0
  total (frame ∷ frames) = w frame + total frames

  -- the weight of what the socket got
  abbrev pub got : List (k.Socket × k.Frame) → ℕ
  got [] = 0
  got ((c, frame) ∷ sent) = let rest = got sent in (if c == ws then w frame else 0) + rest

  -- the weight of what a coroutine has still to send to it
  abbrev pub owed : Task k → ℕ
  owed (replaying c frames) = if c == ws then total frames else 0
  owed (casting frame clients dead) = if elem ws clients then w frame else 0

  abbrev pub all_owed : List (Task k) → ℕ
  all_owed [] = 0
  all_owed (task ∷ tasks) = owed task + all_owed tasks

  -- a send to it raised, and the coroutine will disconnect it
  abbrev pub is_dead : Task k → Bool
  is_dead (replaying c frames) = false
  is_dead (casting frame clients dead) = elem ws dead

  pub got-append : (a b : List (k.Socket × k.Frame)) → got (a ++ b) ≡ got a + got b
  got-append [] b = omega arith
  got-append ((c, frame) ∷ a) b = omega (arith, got-append a b)

  pub elem-disconnect_all :
      (dead : List k.Socket) (h : Hub k)
      → elem ws (disconnect_all k dead h).clients ≡ (elem ws h.clients && not (elem ws dead))
  unfolding disconnect_all disconnect
  elem-disconnect_all [] h = ground arith
  elem-disconnect_all (c ∷ dead) h = ground (
    arith,
    elem-disconnect_all dead (disconnect k h c),
    elem-select (λ x. not (x == c)) ws h.clients,
  )

  pub sent-disconnect_all :
      (dead : List k.Socket) (h : Hub k) → (disconnect_all k dead h).sent ≡ h.sent
  unfolding disconnect_all disconnect
  sent-disconnect_all [] h = refl
  sent-disconnect_all (c ∷ dead) h = sent-disconnect_all dead (disconnect k h c)

  -- What became of the socket, if it is a client and not given up: it was a client, not given up, and
  -- got what is no longer owed.
  pub record Keeps (h : Hub k) (dead : Bool) (owes : ℕ) (r : Hub k × List (Task k)) : Type 0 where
    pub client : elem ws h.clients ≡ true
    pub alive : dead ≡ false
    pub same : got r.0.sent + all_owed r.1 ≡ got h.sent + owes

  abbrev pub KeepsIf : Hub k → Bool → ℕ → Hub k × List (Task k) → Type 0
  KeepsIf h dead owes r = elem ws r.0.clients ≡ true → any is_dead r.1 ≡ false → Keeps h dead owes r

  pub cast_on-KeepsIf :
      (h : Hub k) (frame : k.Frame) (clients dead : List k.Socket)
      → KeepsIf h
          (elem ws dead)
          (if elem ws clients then w frame else 0)
          (cast_on k h frame clients dead)
  unfolding cast_on
  cast_on-KeepsIf h frame [] dead still live =
      let both = elem-disconnect_all dead h in
      record {
        client = ground arith;
        alive = ground arith;
        same = ap (λ x. got x + 0) (sent-disconnect_all dead h);
      }
  cast_on-KeepsIf h frame (c ∷ clients) dead still live = record {
    client = still;
    alive = ground arith;
    same = omega arith;
  }

  pub owed-replay_on :
      (c : k.Socket) (frames : List k.Frame)
      → all_owed (replay_on k c frames) ≡ (if c == ws then total frames else 0)
  owed-replay_on c [] = ground arith
  owed-replay_on c (frame ∷ frames) = omega arith

  pub dead-replay_on :
      (c : k.Socket) (frames : List k.Frame) → any is_dead (replay_on k c frames) ≡ false
  dead-replay_on c [] = refl
  dead-replay_on c (frame ∷ frames) = refl

  if_plus :
      (b : Bool) (x y : ℕ) → (if b then x + y else 0) ≡ (if b then x else 0) + (if b then y else 0)
  if_plus true x y = refl
  if_plus false x y = omega arith

  owed_head :
      (c : k.Socket) (frame : k.Frame) (clients : List k.Socket)
      → distinct (c ∷ clients) ≡ true
      → (if c == ws then w frame else 0) + (if elem ws clients then w frame else 0)
        ≡ (if elem ws (c ∷ clients) then w frame else 0)
  owed_head c frame clients d = elim (Bool-cases (c == ws)) [
    | inl same ↦
        let absent : elem ws clients ≡ false =
          subst (λ x. elem x clients ≡ false) ((e.beq_iff c ws).0 same) (ground arith) in
        let here : (ws == c) ≡ true = ground (arith, e.beq_iff ws c, e.beq_iff c ws) in
        rw (same, absent, here) (omega arith)
    | inr other ↦
        let there : (ws == c) ≡ false = ground (arith, e.beq_iff ws c, e.beq_iff c ws) in
        rw (other, there) (omega arith)
  ]

  pub resume-KeepsIf :
      (h : Hub k) (task : Task k) (returned : Bool)
      → IsDistinct k task
      → KeepsIf h (is_dead task) (owed task) (resume k h task returned)
  unfolding resume disconnect
  resume-KeepsIf h (replaying c []) returned d still live = record {
    client = still;
    alive = refl;
    same = ground arith;
  }
  resume-KeepsIf h (replaying c (frame ∷ frames)) true d still live = record {
    client = still;
    alive = refl;
    same = omega (
      arith,
      got-append h.sent ((c, frame) ∷ []),
      owed-replay_on c frames,
      if_plus (c == ws) (w frame) (total frames),
    );
  }
  resume-KeepsIf h (replaying c (frame ∷ frames)) false d still live =
      let left = elem-select (λ x. not (x == c)) ws h.clients in
      let gone : (c == ws) ≡ false = ground (arith, left, e.beq_iff ws c, e.beq_iff c ws) in
      record { client = ground (arith, left); alive = refl; same = rw gone refl }
  resume-KeepsIf h (casting frame [] dead) returned d still live =
      cast_on-KeepsIf h frame [] dead still live
  resume-KeepsIf h (casting frame (c ∷ clients) dead) true d still live =
      let kept = cast_on-KeepsIf (note k h c frame) frame clients dead still live in
      record {
        client = kept.client;
        alive = kept.alive;
        same =
            omega
              (arith, kept.same, got-append h.sent ((c, frame) ∷ []), owed_head c frame clients d);
      }
  resume-KeepsIf h (casting frame (c ∷ clients) dead) false d still live =
      let kept = cast_on-KeepsIf h frame clients (c ∷ dead) still live in
      let other : (ws == c) ≡ false = ground (arith, kept.alive) in
      record { client = kept.client; alive = ground (arith, kept.alive); same = rw other kept.same }
