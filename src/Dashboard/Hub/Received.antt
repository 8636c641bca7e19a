-- ===== src/Dashboard/Hub/Received.antt =====
-- What a browser receives from the hub (dashboard_api/hub.py), however the coroutines take turns.
use distrosense.Base.{
  All, ==_refl, ℕ, ◌+◌, ◌∙◌, Bool, true, false, List, [], ◌∷◌, ◌++◌, elem, elem-select, Eq, ◌==◌,
  arith, ◌≡◌, refl, ap, any, subst, not, if◌then◌else◌, All-append_right,
}
use distrosense.Dashboard.Hub.{
  Sockets, Task, Running, Event, Step, Run, replaying, casting, disconnect, connect, register,
  broadcast, resume, spawn, connects, disconnects, broadcasts, goes_on, fails, outcome, connected,
  closed, told, resumed, at_start, then_step, new_hub, replay_on,
}
use distrosense.Dashboard.Hub.Distinct.{IsDistinct, IsTidy, connect-IsTidy, Run-IsTidy}
use distrosense.Dashboard.Hub.Pending.{
  dead-replay_on, total, got, all_owed, is_dead, cast_on-KeepsIf, resume-KeepsIf, owed-replay_on,
}
use distrosense.Dashboard.Hub.Served.{
  any-append, breaks, serves, IsServed, Run-IsServed, dead-serves,
}

module _ (k : Sockets) ⦃e : Eq k.Socket⦄ where
  -- the frames that events broadcast
  abbrev pub frames : List (Event k) → List k.Frame
  frames [] = []
  frames (broadcasts frame ∷ events) = frame ∷ frames events
  frames (event ∷ events) = frames events

  -- the event connects the socket
  abbrev pub is_connect_of : k.Socket → Event k → Bool
  is_connect_of ws (connects c) = c == ws
  is_connect_of ws _ = false

module _ (k : Sockets) ⦃e : Eq k.Socket⦄ (w : k.Frame → ℕ) (ws : k.Socket) where
  -- the weight of what the socket got, and of what the coroutines have still to send to it
  abbrev pub held : Running k → ℕ
  held s = got k w ws s.hub.sent + all_owed k w ws s.tasks

  all_owed-append :
      (a b : List (Task k)) → all_owed k w ws (a ++ b) ≡ all_owed k w ws a + all_owed k w ws b
  all_owed-append [] b = omega arith
  all_owed-append (task ∷ a) b = omega (arith, all_owed-append a b)

  -- what a step leaves of a socket that it serves
  abbrev Follows : Running k → Running k → ℕ → Type 0
  Follows s t more = IsServed k w ws t → IsServed k w ws s × (held t ≡ held s + more)

  total-outcome :
      (task : Task k) (returned : Bool) → total k w ws (frames k (outcome k task returned ∷ [])) ≡ 0
  total-outcome task true = refl
  total-outcome (replaying c l) false = refl
  total-outcome (casting frame [] dead) false = refl
  total-outcome (casting frame (c ∷ clients) dead) false = refl

  Step-Follows :
      (s t : Running k) (event : Event k)
      → Step k s t event
      → is_connect_of k ws event ≡ false
      → IsTidy k s.hub.clients s.tasks
      → Follows s t (total k w ws (frames k (event ∷ [])))
  unfolding connect disconnect broadcast
  Step-Follows s t event (connected c) other tidy (still, live) =
      let more = replay_on k c s.hub.recent in
      let nothing : all_owed k w ws more ≡ 0 =
        owed-replay_on k w ws c s.hub.recent ∙ rw other refl in
      let same : (register k s.hub c).sent ≡ s.hub.sent = ground arith in
      (
        (
          ground (arith, e.beq_iff ws c, e.beq_iff c ws),
          ground (arith, any-append (is_dead k w ws) more s.tasks),
        ),
        omega (arith, nothing, ap (got k w ws) same, all_owed-append more s.tasks),
      )
  Step-Follows s t event (closed c) other tidy (still, live) =
      ((ground (arith, elem-select (λ x. not (x == c)) ws s.hub.clients), live), omega arith)
  Step-Follows s t event (told frame) other tidy (still, live) =
      let (after, more) = broadcast k s.hub frame in
      let both = any-append (is_dead k w ws) more s.tasks in
      let kept = cast_on-KeepsIf k w ws _ frame s.hub.clients [] still (ground (arith, both)) in
      let there : (if elem ws s.hub.clients then w frame else 0) ≡ w frame = rw kept.client refl in
      (
        (kept.client, ground (arith, both)),
        omega (arith, kept.same, there, all_owed-append more s.tasks),
      )
  Step-Follows s t event (resumed before after task returned same) other tidy (still, live) =
      let (hub, more) = resume k s.hub task returned in
      let one = any-append (is_dead k w ws) before (more ++ after) in
      let two = any-append (is_dead k w ws) more after in
      let three = any-append (is_dead k w ws) before (task ∷ after) in
      let four = ap (any (is_dead k w ws)) same in
      let here =
        All-append_right (IsDistinct k) before (task ∷ after)
          (subst (All (IsDistinct k)) same tidy.1) in
      let kept =
        resume-KeepsIf k w ws s.hub task returned here.0 still (ground (arith, one, two)) in
      (
        (kept.client, ground (arith, one, two, three, four, kept.alive)),
        omega (
          arith,
          kept.same,
          total-outcome task returned,
          ap (all_owed k w ws) same,
          all_owed-append before (task ∷ after),
          all_owed-append before (more ++ after),
          all_owed-append more after,
        ),
      )

  total-frames :
      (a b : List (Event k))
      → total k w ws (frames k (a ++ b)) ≡ total k w ws (frames k a) + total k w ws (frames k b)
  total-frames [] b = omega arith
  total-frames (connects c ∷ a) b = total-frames a b
  total-frames (disconnects c ∷ a) b = total-frames a b
  total-frames (goes_on ∷ a) b = total-frames a b
  total-frames (fails c ∷ a) b = total-frames a b
  total-frames (broadcasts frame ∷ a) b = omega (arith, total-frames a b)

  Run-Follows :
      (s t : Running k) (events : List (Event k))
      → Run k s t events
      → any (is_connect_of k ws) events ≡ false
      → IsTidy k s.hub.clients s.tasks
      → Follows s t (total k w ws (frames k events))
  Run-Follows s t events at_start once tidy served = (served, omega arith)
  Run-Follows s t events (then_step mid last before event run step) once tidy served =
      let both = any-append (is_connect_of k ws) before (event ∷ []) in
      let now =
        Step-Follows mid last event step (ground (arith, both)) (Run-IsTidy k s mid before run tidy)
          served in
      let earlier = Run-Follows s mid before run (ground (arith, both)) tidy now.0 in
      (earlier.0, omega (arith, now.1, earlier.1, total-frames before (event ∷ [])))

  owed-serves :
      (tasks : List (Task k)) → any (serves k ws) tasks ≡ false → all_owed k w ws tasks ≡ 0
  owed-serves [] h = refl
  owed-serves (replaying c frames ∷ tasks) h = ground (arith, owed-serves tasks)
  owed-serves (casting frame clients dead ∷ tasks) h = ground (arith, owed-serves tasks)

  -- However the coroutines of the hub take turns: a socket that connects at a moment when no coroutine
  -- that waits knows it stays a client, as long as it is not closed and no send to it raises. If it is
  -- not connected again, it has got since then, with what the coroutines that wait have still to send
  -- to it, the frames that the hub kept for replay and all that were broadcast, each once: as many of
  -- them under every weight of frames. Their order is left open.
  pub got-Run :
      (backfill : ℕ) (past events : List (Event k)) (s t : Running k)
      → Run k (record { hub = new_hub k backfill; tasks = [] }) s past
      → any (serves k ws) s.tasks ≡ false
      → Run k (spawn k s (connect k s.hub ws)) t events
      → any (is_connect_of k ws) events ≡ false
      → any (breaks k ws) events ≡ false
      → (elem ws t.hub.clients ≡ true)
        × (got k w ws t.hub.sent + all_owed k w ws t.tasks
            ≡ got k w ws s.hub.sent + total k w ws s.hub.recent + total k w ws (frames k events))
  unfolding connect new_hub
  got-Run backfill past events s t before idle run once whole =
      let tidy = Run-IsTidy k _ s past before (refl, tt) in
      let more = replay_on k ws s.hub.recent in
      let first : elem ws (register k s.hub ws).clients ≡ true = ground (arith, ==_refl ws) in
      let quiet : any (is_dead k w ws) (more ++ s.tasks) ≡ false = ground (
        arith,
        any-append (is_dead k w ws) more s.tasks,
        dead-replay_on k w ws ws s.hub.recent,
        dead-serves k w ws s.tasks,
      ) in
      let served = Run-IsServed k w ws _ t events run whole (first, quiet) in
      let later = Run-Follows _ t events run once (connect-IsTidy k s ws tidy) served in
      let all : all_owed k w ws more ≡ total k w ws s.hub.recent =
        owed-replay_on k w ws ws s.hub.recent ∙ rw (==_refl ws) refl in
      let same : (register k s.hub ws).sent ≡ s.hub.sent = ground arith in
      (
        served.0,
        omega (
          arith,
          later.1,
          all,
          ap (got k w ws) same,
          all_owed-append more s.tasks,
          owed-serves s.tasks idle,
        ),
      )
