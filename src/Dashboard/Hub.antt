-- ===== src/Dashboard/Hub.antt =====
-- dashboard_api/hub.py: Hub, and the handler of a connection in dashboard_api/main.py (`live`). The
-- sockets and the frames are parameters; json.dumps of a frame is left to the caller. Coroutines take
-- turns at the `await`s: one that waits for a send is a `Task`, and whether a send returns is
-- arbitrary. `sent` records the sends that return.
pub mod Distinct
pub mod Pending
pub mod Served
pub mod Received
use distrosense.Base.{
  ℕ, Bool, true, false, not, List, [], ◌∷◌, ◌++◌, length, select, elem, Eq, ◌==◌, if◌then◌else◌,
  ◌≡◌,
}
use distrosense.Base.Deque.{push}

pub record Sockets : Type 1 where
  pub Socket : Type 0
  pub Frame : Type 0

module _ (k : Sockets) ⦃e : Eq k.Socket⦄ where
  open k use {Socket, Frame}

  pub record Hub : Type 0 where
    pub clients : List Socket
    pub recent : List Frame
    pub backfill : ℕ
    pub sent : List (Socket × Frame)

  unfoldable pub new_hub : ℕ → Hub
  new_hub backfill = record { clients = []; recent = []; backfill = backfill; sent = [] }

  unfoldable pub client_count : Hub → ℕ
  client_count h = length h.clients

  -- A coroutine at an await: `connect` with the frames that are left to send, the first of which is
  -- being sent; `broadcast` with the frame, the clients that are left, likewise, and `dead`.
  pub data Task : Type 0 where
    replaying : Socket → List Frame → Task
    casting : Frame → List Socket → List Socket → Task

  unfoldable pub disconnect : Hub → Socket → Hub
  disconnect h ws = record h { clients = select (λ c. not (c == ws)) h.clients }

  unfoldable pub disconnect_all : List Socket → Hub → Hub
  unfolding disconnect
  disconnect_all [] h = h
  disconnect_all (ws ∷ dead) h = disconnect_all dead (disconnect h ws)

  abbrev pub register : Hub → Socket → Hub
  register h ws = if elem ws h.clients then h else record h { clients = ws ∷ h.clients }

  -- the loop of `connect` to its next await, or its end
  abbrev pub replay_on : Socket → List Frame → List Task
  replay_on ws [] = []
  replay_on ws (frame ∷ frames) = replaying ws (frame ∷ frames) ∷ []

  -- `connect` behind `accept`, to the first await
  unfoldable pub connect : Hub → Socket → Hub × List Task
  connect h ws = (register h ws, replay_on ws h.recent)

  -- the loop of `broadcast` to its next await, or its end
  unfoldable pub cast_on : Hub → Frame → List Socket → List Socket → Hub × List Task
  unfolding disconnect_all
  cast_on h frame [] dead = (disconnect_all dead h, [])
  cast_on h frame (ws ∷ clients) dead = (h, casting frame (ws ∷ clients) dead ∷ [])

  -- `broadcast` to its first await
  unfoldable pub broadcast : Hub → Frame → Hub × List Task
  unfolding push cast_on
  broadcast h frame =
      cast_on (record h { recent = push h.backfill h.recent frame }) frame h.clients []

  abbrev pub note : Hub → Socket → Frame → Hub
  note h ws frame = record h { sent = h.sent ++ (ws, frame) ∷ [] }

  -- from the end of a send to the next await: whether the send returned
  unfoldable pub resume : Hub → Task → Bool → Hub × List Task
  unfolding cast_on disconnect
  resume h (replaying ws []) returned = (h, [])
  resume h (replaying ws (frame ∷ frames)) true = (note h ws frame, replay_on ws frames)
  resume h (replaying ws (frame ∷ frames)) false = (disconnect h ws, [])
  resume h (casting frame [] dead) returned = cast_on h frame [] dead
  resume h (casting frame (ws ∷ clients) dead) true = cast_on (note h ws frame) frame clients dead
  resume h (casting frame (ws ∷ clients) dead) false = cast_on h frame clients (ws ∷ dead)

  -- the hub with the coroutines that wait
  pub record Running : Type 0 where
    pub hub : Hub
    pub tasks : List Task

  -- `live` connects a socket, and disconnects it when it is closed; a coroutine goes on after a send
  -- that returned, or after one that raised
  pub data Event : Type 0 where
    connects disconnects : Socket → Event
    broadcasts : Frame → Event
    goes_on : Event
    fails : Socket → Event

  abbrev pub outcome : Task → Bool → Event
  outcome task true = goes_on
  outcome (replaying ws frames) false = fails ws
  outcome (casting frame [] dead) false = goes_on
  outcome (casting frame (ws ∷ clients) dead) false = fails ws

  abbrev pub spawn : Running → Hub × List Task → Running
  spawn s (h, more) = record { hub = h; tasks = more ++ s.tasks }

  abbrev pub replace : List Task → List Task → Hub × List Task → Running
  replace before after (h, more) = record { hub = h; tasks = before ++ (more ++ after) }

  pub data Step (s : Running) : Running → Event → Type 0 where
    connected : (ws : Socket) → Step s (spawn s (connect s.hub ws)) (connects ws)
    closed : (ws : Socket) → Step s (record s { hub = disconnect s.hub ws }) (disconnects ws)
    told : (frame : Frame) → Step s (spawn s (broadcast s.hub frame)) (broadcasts frame)
    resumed :
        (before after : List Task) (task : Task) (returned : Bool)
        → s.tasks ≡ before ++ task ∷ after
        → Step s (replace before after (resume s.hub task returned)) (outcome task returned)

  -- any number of steps, with what happens in them
  pub data Run (s : Running) : Running → List Event → Type 0 where
    at_start : Run s s []
    then_step :
        (mid last : Running) (events : List Event) (event : Event)
        → Run s mid events
        → Step mid last event
        → Run s last (events ++ event ∷ [])
