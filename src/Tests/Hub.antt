-- ===== src/Tests/Hub.antt =====
-- A browser that connects between two frames, and a live frame that overtakes the replay.
use distrosense.Base.{elem, ℕ, ◌+◌, true, List, [], ◌∷◌, ◌≡◌, refl, nat_eq}
use distrosense.Base.Deque.{keep_last}
use distrosense.Dashboard.Hub.{
  Sockets, Running, Event, Run, new_hub, connect, spawn, broadcast, cast_on, resume, replaying,
  casting, broadcasts, goes_on, told, resumed, at_start, then_step,
}
use distrosense.Dashboard.Hub.Pending.{got, total, all_owed}
use distrosense.Dashboard.Hub.Received.{frames, got-Run}

abbrev sockets : Sockets
sockets = record { Socket = ℕ; Frame = ℕ }

-- one frame was broadcast, to nobody
abbrev quiet : Running sockets
quiet = record {
  hub = record { clients = []; recent = 10 ∷ []; backfill = 2; sent = [] };
  tasks = [];
}

was_told : Run sockets (record { hub = new_hub sockets 2; tasks = [] }) quiet (broadcasts 10 ∷ [])
unfolding new_hub broadcast cast_on keep_last
was_told = then_step _ _ [] (broadcasts 10) at_start (told 10)

-- the second frame arrives before the first, and nothing is left to send
abbrev served : Running sockets
served = record {
  hub = record {
    clients = 1 ∷ [];
    recent = 10 ∷ 40 ∷ [];
    backfill = 2;
    sent = (1, 40) ∷ (1, 10) ∷ [];
  };
  tasks = [];
}

abbrev events : List (Event sockets)
events = broadcasts 40 ∷ goes_on ∷ goes_on ∷ []

overtaken : Run sockets (spawn sockets quiet (connect sockets quiet.hub 1)) served events
unfolding connect broadcast cast_on keep_last resume
overtaken =
    then_step _ _ (broadcasts 40 ∷ goes_on ∷ []) goes_on
      (then_step _ _ (broadcasts 40 ∷ []) goes_on
        (then_step _ _ [] (broadcasts 40) at_start (told 40))
        (resumed [] (replaying 1 (10 ∷ []) ∷ []) (casting 40 (1 ∷ []) []) true refl))
      (resumed [] [] (replaying 1 (10 ∷ [])) true refl)

got-Run_example :
    (elem 1 served.hub.clients ≡ true)
    × (got sockets (λ frame. 1) 1 served.hub.sent + all_owed sockets (λ frame. 1) 1 served.tasks
        ≡ got sockets (λ frame. 1) 1 quiet.hub.sent
          + total sockets (λ frame. 1) 1 quiet.hub.recent
          + total sockets (λ frame. 1) 1 (frames sockets events))
got-Run_example =
    got-Run sockets (λ frame. 1) 1 2 (broadcasts 10 ∷ []) events quiet served was_told refl
      overtaken refl refl
