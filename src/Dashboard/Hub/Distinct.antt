-- ===== src/Dashboard/Hub/Distinct.antt =====
-- The clients of the hub (dashboard_api/hub.py) are a set, and a broadcast sends to each of them once.
use distrosense.Base.{
  Bool, true, false, not, List, [], ◌∷◌, elem-select, Eq, ◌==◌, arith, ◌≡◌, refl, subst, distinct,
  select, All, All-append, All-append_left, All-append_right,
}
use distrosense.Dashboard.Hub.{
  Sockets, Hub, Task, Running, Event, Step, Run, replaying, casting, disconnect, disconnect_all,
  cast_on, replay_on, connect, broadcast, resume, spawn, note, connected, closed, told, resumed,
  at_start, then_step,
}

module _ (k : Sockets) ⦃e : Eq k.Socket⦄ where
  abbrev pub IsDistinct : Task k → Type 0
  IsDistinct (replaying c frames) = Unit
  IsDistinct (casting frame clients dead) = distinct clients ≡ true

  abbrev pub IsTidy : List k.Socket → List (Task k) → Type 0
  IsTidy clients tasks = (distinct clients ≡ true) × All IsDistinct tasks

  distinct-select :
      (p : k.Socket → Bool) (l : List k.Socket) → distinct l ≡ true → distinct (select p l) ≡ true
  distinct-select p [] d = refl
  distinct-select p (c ∷ l) d = ground (arith, distinct-select p l, elem-select p c l)

  distinct-disconnect_all :
      (dead : List k.Socket) (h : Hub k)
      → distinct h.clients ≡ true
      → distinct (disconnect_all k dead h).clients ≡ true
  unfolding disconnect_all disconnect
  distinct-disconnect_all [] h d = d
  distinct-disconnect_all (c ∷ dead) h d =
      distinct-disconnect_all dead (disconnect k h c)
        (distinct-select (λ x. not (x == c)) h.clients d)

  cast_on-IsTidy :
      (h : Hub k) (frame : k.Frame) (clients dead : List k.Socket)
      → distinct h.clients ≡ true
      → distinct clients ≡ true
      → let (after, more) = cast_on k h frame clients dead in IsTidy after.clients more
  unfolding cast_on
  cast_on-IsTidy h frame [] dead d c = (distinct-disconnect_all dead h d, tt)
  cast_on-IsTidy h frame (ws ∷ clients) dead d c = (d, (c, tt))

  All-replay_on : (c : k.Socket) (frames : List k.Frame) → All IsDistinct (replay_on k c frames)
  All-replay_on c [] = tt
  All-replay_on c (frame ∷ frames) = (tt, tt)

  resume-IsTidy :
      (h : Hub k) (task : Task k) (returned : Bool)
      → distinct h.clients ≡ true
      → IsDistinct task
      → let (after, more) = resume k h task returned in IsTidy after.clients more
  unfolding resume disconnect
  resume-IsTidy h (replaying c []) returned d t = (d, tt)
  resume-IsTidy h (replaying c (frame ∷ frames)) true d t = (d, All-replay_on c frames)
  resume-IsTidy h (replaying c (frame ∷ frames)) false d t =
      (distinct-select (λ x. not (x == c)) h.clients d, tt)
  resume-IsTidy h (casting frame [] dead) returned d t = cast_on-IsTidy h frame [] dead d t
  resume-IsTidy h (casting frame (c ∷ clients) dead) true d t =
      cast_on-IsTidy (note k h c frame) frame clients dead d (ground arith)
  resume-IsTidy h (casting frame (c ∷ clients) dead) false d t =
      cast_on-IsTidy h frame clients (c ∷ dead) d (ground arith)

  pub connect-IsTidy :
      (s : Running k) (ws : k.Socket)
      → IsTidy s.hub.clients s.tasks
      → let t = spawn k s (connect k s.hub ws) in IsTidy t.hub.clients t.tasks
  unfolding connect
  connect-IsTidy s ws (d, all) = (
    ground arith,
    All-append IsDistinct (replay_on k ws s.hub.recent) s.tasks (All-replay_on ws s.hub.recent) all,
  )

  pub Step-IsTidy :
      (s t : Running k) (event : Event k)
      → Step k s t event
      → IsTidy s.hub.clients s.tasks
      → IsTidy t.hub.clients t.tasks
  unfolding disconnect broadcast
  Step-IsTidy s t event (connected ws) tidy = connect-IsTidy s ws tidy
  Step-IsTidy s t event (closed ws) (d, all) =
      (distinct-select (λ x. not (x == ws)) s.hub.clients d, all)
  Step-IsTidy s t event (told frame) (d, all) =
      let more = cast_on-IsTidy _ frame s.hub.clients [] d d in
      (more.0, All-append IsDistinct _ s.tasks more.1 all)
  Step-IsTidy s t event (resumed before after task returned same) (d, all) =
      let here = subst (All IsDistinct) same all in
      let rest = All-append_right IsDistinct before (task ∷ after) here in
      let more = resume-IsTidy s.hub task returned d rest.0 in
      (
        more.0,
        All-append IsDistinct before _ (All-append_left IsDistinct before (task ∷ after) here)
            (All-append IsDistinct _ after more.1 rest.1),
      )

  pub Run-IsTidy :
      (s t : Running k) (events : List (Event k))
      → Run k s t events
      → IsTidy s.hub.clients s.tasks
      → IsTidy t.hub.clients t.tasks
  Run-IsTidy s t events at_start tidy = tidy
  Run-IsTidy s t events (then_step mid last before event run step) tidy =
      Step-IsTidy mid last event step (Run-IsTidy s mid before run tidy)
