-- ===== src/Dashboard/Hub/Served.antt =====
-- Which sockets stay clients of the hub (dashboard_api/hub.py).
use distrosense.Base.{
  ℕ, ◌||◌, Bool, true, false, List, [], ◌∷◌, ◌++◌, elem, elem-select, Eq, ◌==◌, arith, ◌≡◌, refl,
  ap, any, not,
}
use distrosense.Dashboard.Hub.{
  cast_on, Hub, Sockets, Task, Running, Event, Step, Run, replaying, casting, disconnect, connect,
  broadcast, resume, note, disconnects, fails, outcome, connected, closed, told, resumed, at_start,
  then_step, replay_on,
}
use distrosense.Dashboard.Hub.Pending.{elem-disconnect_all, dead-replay_on, is_dead}

pub any-append {ℓ} :
    {A : Type ℓ} (p : A → Bool) (a b : List A) → any p (a ++ b) ≡ (any p a || any p b)
any-append p [] b = refl
any-append p (x ∷ a) b = ground (arith, any-append p a b)

module _ (k : Sockets) ⦃e : Eq k.Socket⦄ where
  -- the socket is closed, or a send to it raises
  abbrev pub breaks : k.Socket → Event k → Bool
  breaks ws (disconnects c) = c == ws
  breaks ws (fails c) = c == ws
  breaks ws _ = false

  -- the coroutine has something to send to the socket, or will disconnect it
  abbrev pub serves : k.Socket → Task k → Bool
  serves ws (replaying c frames) = c == ws
  serves ws (casting frame clients dead) = elem ws clients || elem ws dead

module _ (k : Sockets) ⦃e : Eq k.Socket⦄ (w : k.Frame → ℕ) (ws : k.Socket) where
  -- It is a client, and no broadcast that waits has seen a send to it fail.
  abbrev pub IsServed : Running k → Type 0
  IsServed s = (elem ws s.hub.clients ≡ true) × (any (is_dead k w ws) s.tasks ≡ false)

  cast_on-IsServed :
      (h : Hub k) (frame : k.Frame) (clients dead : List k.Socket)
      → elem ws h.clients ≡ true
      → elem ws dead ≡ false
      → let (after, more) = cast_on k h frame clients dead in
        (elem ws after.clients ≡ true) × (any (is_dead k w ws) more ≡ false)
  unfolding cast_on
  cast_on-IsServed h frame [] dead still live =
      (ground (arith, elem-disconnect_all k w ws dead h), refl)
  cast_on-IsServed h frame (c ∷ clients) dead still live = (still, ground arith)

  resume-IsServed :
      (h : Hub k) (task : Task k) (returned : Bool)
      → breaks k ws (outcome k task returned) ≡ false
      → elem ws h.clients ≡ true
      → is_dead k w ws task ≡ false
      → let (after, more) = resume k h task returned in
        (elem ws after.clients ≡ true) × (any (is_dead k w ws) more ≡ false)
  unfolding resume disconnect
  resume-IsServed h (replaying c []) returned whole still live = (still, refl)
  resume-IsServed h (replaying c (frame ∷ l)) true whole still live =
      (still, dead-replay_on k w ws c l)
  resume-IsServed h (replaying c (frame ∷ l)) false whole still live = (
    ground (arith, elem-select (λ x. not (x == c)) ws h.clients, e.beq_iff ws c, e.beq_iff c ws),
    refl,
  )
  resume-IsServed h (casting frame [] dead) returned whole still live =
      cast_on-IsServed h frame [] dead still live
  resume-IsServed h (casting frame (c ∷ clients) dead) true whole still live =
      cast_on-IsServed (note k h c frame) frame clients dead still live
  resume-IsServed h (casting frame (c ∷ clients) dead) false whole still live =
      cast_on-IsServed h frame clients (c ∷ dead) still
        (ground (arith, e.beq_iff ws c, e.beq_iff c ws))

  Step-IsServed :
      (s t : Running k) (event : Event k)
      → Step k s t event
      → breaks k ws event ≡ false
      → IsServed s
      → IsServed t
  unfolding connect disconnect broadcast
  Step-IsServed s t event (connected c) whole (still, live) =
      let more = replay_on k c s.hub.recent in
      (
        ground arith,
        ground
            (arith, any-append (is_dead k w ws) more s.tasks, dead-replay_on k w ws c s.hub.recent),
      )
  Step-IsServed s t event (closed c) whole (still, live) = (
    ground
        (arith, elem-select (λ x. not (x == c)) ws s.hub.clients, e.beq_iff ws c, e.beq_iff c ws),
    live,
  )
  Step-IsServed s t event (told frame) whole (still, live) =
      let (after, more) = broadcast k s.hub frame in
      let kept = cast_on-IsServed _ frame s.hub.clients [] still refl in
      (kept.0, ground (arith, kept.1, any-append (is_dead k w ws) more s.tasks))
  Step-IsServed s t event (resumed before after task returned same) whole (still, live) =
      let (hub, more) = resume k s.hub task returned in
      let three = any-append (is_dead k w ws) before (task ∷ after) in
      let four = ap (any (is_dead k w ws)) same in
      let kept = resume-IsServed s.hub task returned whole still (ground (arith, three, four)) in
      (
        kept.0,
        ground (
          arith,
          kept.1,
          three,
          four,
          any-append (is_dead k w ws) before (more ++ after),
          any-append (is_dead k w ws) more after,
        ),
      )

  pub Run-IsServed :
      (s t : Running k) (events : List (Event k))
      → Run k s t events
      → any (breaks k ws) events ≡ false
      → IsServed s
      → IsServed t
  Run-IsServed s t events at_start whole served = served
  Run-IsServed s t events (then_step mid last before event run step) whole served =
      let both = any-append (breaks k ws) before (event ∷ []) in
      Step-IsServed mid last event step (ground (arith, both))
        (Run-IsServed s mid before run (ground (arith, both)) served)

  pub dead-serves :
      (tasks : List (Task k)) → any (serves k ws) tasks ≡ false → any (is_dead k w ws) tasks ≡ false
  dead-serves [] h = refl
  dead-serves (replaying c l ∷ tasks) h = ground (arith, dead-serves tasks)
  dead-serves (casting frame clients dead ∷ tasks) h = ground (arith, dead-serves tasks)
