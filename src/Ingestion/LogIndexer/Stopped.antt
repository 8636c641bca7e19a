-- ===== src/Ingestion/LogIndexer/Stopped.antt =====
-- `close` of ingestion/logs/es_log_indexer.py, and what the worker does with the documents that wait.
use distrosense.Base.{
  sym, if◌then◌else◌, not, subst, ◌+◌, ◌<◌, select, lt→ltb, String, All-append, All, ◌-◌, ℕ, zero,
  suc, ◌≤◌, Bool, true, false, List, [], ◌∷◌, length, Result, ok, raised, leb, ltb, arith, ◌≡◌,
  refl, ap, inl, inr, Bool-cases, ◌∙◌,
}
use distrosense.Ingestion.LogIndexer.{
  gives_up, gather, LogDoc, gather, work, gives_up, is_over, is_nil, finish, Elastic, Indexer, stop,
  take_one, flush, bulk, with_days, take_from, count_items, send, bulk_if,
}
use distrosense.Ingestion.LogIndexer.Conserved.{accounted, accounted-send, accounted-take_one}

module _ (e : Elastic) where
  abbrev HasDays : List LogDoc → Type 0
  HasDays docs = All (λ d. (day : String) × (e.day_of d.timestamp ≡ ok day)) docs

  -- the worker runs, and no document will end it
  abbrev pub IsReady : Indexer e → Type 0
  IsReady s = (s.is_running ≡ true) × HasDays s.queue × HasDays s.batch × (1 ≤ s.batch_size)

  take_from-IsReady :
      (s : Indexer e) (queue : List LogDoc)
      → IsReady s
      → HasDays queue
      → IsReady (take_from e s queue)
  take_from-IsReady s [] r h = r
  take_from-IsReady s (d ∷ queue) r h = (r.0, h.1, All-append _ s.batch (d ∷ []) r.2 (h.0, tt), r.3)

  take_one-IsReady : (s : Indexer e) → IsReady s → IsReady (take_one e s)
  unfolding take_one
  take_one-IsReady s r = elim (Bool-cases (ltb (length s.batch) s.batch_size)) [
    | inl more ↦ rw more (take_from-IsReady s s.queue r r.1)
    | inr full ↦ rw full r
  ]

  gather-IsReady : (n : ℕ) (s : Indexer e) → IsReady s → IsReady (gather e n s)
  unfolding gather
  gather-IsReady zero s r = r
  gather-IsReady (suc n) s r = elim (Bool-cases (gives_up e s)) [
    | inl up ↦ rw up r
    | inr on ↦ rw on (gather-IsReady n (take_one e s) (take_one-IsReady s r))
  ]

  length-take_from :
      (s : Indexer e) (queue : List LogDoc)
      → queue ≡ s.queue
      → length (take_from e s queue).queue ≡ length queue - 1
  length-take_from s [] same = omega (arith, ap length same)
  length-take_from s (d ∷ queue) same = omega arith

  length-take_one : (s : Indexer e) → length (take_one e s).queue ≤ length s.queue
  unfolding take_one
  length-take_one s = elim (Bool-cases (ltb (length s.batch) s.batch_size)) [
    | inl more ↦ rw more (omega (arith, length-take_from s s.queue refl))
    | inr full ↦ rw full (omega arith)
  ]

  length-gather : (n : ℕ) (s : Indexer e) → length (gather e n s).queue ≤ length s.queue
  unfolding gather
  length-gather zero s = omega arith
  length-gather (suc n) s = elim (Bool-cases (gives_up e s)) [
    | inl up ↦ rw up (omega arith)
    | inr on ↦ rw on (omega (arith, length-gather n (take_one e s), length-take_one s))
  ]

  accounted-gather : (n : ℕ) (s : Indexer e) → accounted e (gather e n s) ≡ accounted e s
  unfolding gather
  accounted-gather zero s = refl
  accounted-gather (suc n) s = elim (Bool-cases (gives_up e s)) [
    | inl up ↦ rw up refl
    | inr on ↦ rw on (accounted-gather n (take_one e s) ∙ accounted-take_one e s)
  ]

  length-take_first :
      (s : Indexer e) → IsReady s → s.batch ≡ [] → length (take_one e s).queue ≡ length s.queue - 1
  unfolding take_one
  length-take_first s r empty =
      let more : ltb (length s.batch) s.batch_size ≡ true =
        lt→ltb (length s.batch) s.batch_size (omega (arith, ap length empty, r.3)) in
      rw more (length-take_from s s.queue refl)

  with_days-returns :
      (docs : List LogDoc)
      → HasDays docs
      → (lines : List (String × LogDoc)) × (with_days e docs ≡ ok lines)
  unfolding with_days
  with_days-returns [] h = ([], refl)
  with_days-returns (d ∷ docs) h =
      let rest = with_days-returns docs h.1 in rw (h.0.1, rest.1) (_, refl)

  -- the worker is ready, with an empty batch, the queue as it was and nothing lost
  abbrev IsSent : Indexer e → Indexer e → Type 0
  IsSent s t =
      IsReady t
      × (t.batch ≡ [])
      × (t.queue ≡ s.queue)
      × (t.is_stopped ≡ s.is_stopped)
      × (accounted e t ≡ accounted e s)

  abbrev IsIdle : Indexer e → Indexer e → Type 0
  IsIdle s t = IsReady t × (t.batch ≡ []) × (t.queue ≡ s.queue) × (t.is_stopped ≡ s.is_stopped)

  count_items-IsIdle :
      (s t : Indexer e) (sent : ℕ) (items : Result (List Bool))
      → IsIdle s t
      → IsIdle s (count_items e t sent items)
  count_items-IsIdle s t sent raised h = h
  count_items-IsIdle s t sent (ok items) h =
      elim (Bool-cases (leb (length (select (λ error. error) items)) sent)) [
        | inl fewer ↦ rw fewer h
        | inr more ↦ rw more h
      ]

  send-IsSent :
      (s : Indexer e) (lines : List (String × LogDoc)) → IsReady s → IsSent s (send e s (ok lines))
  send-IsSent s lines r =
      let (w, items) = e.post s.world lines in
      let idle =
        count_items-IsIdle s (record s { world = w; batch = [] }) (length s.batch) items
          ((r.0, r.1, tt, r.3), refl, refl, refl) in
      (idle.0, idle.1, idle.2, idle.3, accounted-send e s lines)

  bulk_if-IsSent :
      (s : Indexer e) (docs : List LogDoc)
      → s.batch ≡ docs
      → IsReady s
      → IsSent s (bulk_if e s docs)
  unfolding bulk
  bulk_if-IsSent s [] same r = (r, same, refl, refl, refl)
  bulk_if-IsSent s (d ∷ docs) same r =
      let (lines, made) = with_days-returns s.batch r.2 in rw (made, bulk) (send-IsSent s lines r)

  flush-IsSent : (s : Indexer e) → IsReady s → IsSent s (flush e s)
  unfolding flush
  flush-IsSent s r = bulk_if-IsSent s s.batch refl r

  -- the iterations in which the inner loop goes round at all
  abbrev pub productive : List ℕ → ℕ
  productive [] = 0
  productive (zero ∷ ns) = productive ns
  productive (suc n ∷ ns) = suc (productive ns)

  is_stopped-take_one : (s : Indexer e) → (take_one e s).is_stopped ≡ s.is_stopped
  unfolding take_one
  is_stopped-take_one s = ground arith

  is_stopped-gather : (n : ℕ) (s : Indexer e) → (gather e n s).is_stopped ≡ s.is_stopped
  unfolding gather
  is_stopped-gather zero s = refl
  is_stopped-gather (suc n) s = elim (Bool-cases (gives_up e s)) [
    | inl up ↦ rw up refl
    | inr on ↦ rw on (is_stopped-gather n (take_one e s) ∙ is_stopped-take_one s)
  ]

  -- an iteration that goes round takes a document
  length-gather_first :
      (n : ℕ) (s : Indexer e)
      → IsReady s
      → s.batch ≡ []
      → is_over e s ≡ false
      → length (gather e (suc n) s).queue ≤ length s.queue - 1
  unfolding gather
  length-gather_first n s r empty more =
      let room : ltb (length s.batch) s.batch_size ≡ true =
        lt→ltb (length s.batch) s.batch_size (omega (arith, ap length empty, r.3)) in
      let on : gives_up e s ≡ false = ground arith in
      rw on (omega (arith, length-gather n (take_one e s), length-take_first s r empty))

  is_nil-length : (docs : List LogDoc) → is_nil e docs ≡ false → 1 ≤ length docs
  is_nil-length [] h = cc
  is_nil-length (d ∷ docs) h = omega arith

  is_nil-nil : (docs : List LogDoc) → is_nil e docs ≡ true → docs ≡ []
  is_nil-nil [] h = refl
  is_nil-nil (d ∷ docs) h = cc

  abbrev IsEnded : Indexer e → Indexer e → Type 0
  IsEnded s t =
      (t.is_running ≡ false) × (t.queue ≡ []) × (t.batch ≡ []) × (accounted e t ≡ accounted e s)

  -- an iteration takes a document, unless its inner loop does not go round
  gather-productive :
      (n : ℕ) (ns : List ℕ) (s : Indexer e)
      → IsReady s
      → s.batch ≡ []
      → s.is_stopped ≡ true
      → is_over e s ≡ false
      → length s.queue < productive (n ∷ ns)
      → length (gather e n s).queue < productive ns
  gather-productive zero ns s r empty stopped more h = omega (arith, length-gather zero s)
  gather-productive (suc n) ns s r empty stopped more h =
      omega (arith, length-gather_first n s r empty more, is_nil-length s.queue (ground arith))

  if_neither :
      (b c : Bool) (x y z : Indexer e)
      → b ≡ false
      → c ≡ false
      → (if b then x else if c then y else z) ≡ z
  if_neither false false x y z h k = refl
  if_neither true c x y z h k = cc
  if_neither false true x y z h k = cc

  work-next :
      (n : ℕ) (ns : List ℕ) (s : Indexer e)
      → s.is_running ≡ true
      → is_over e s ≡ false
      → work e (n ∷ ns) s ≡ work e ns (flush e (gather e n s))
  unfolding work
  work-next n ns s running more =
      if_neither (not s.is_running) (is_over e s) s (finish e s) _ (ap not running) more

  work-IsEnded :
      (ns : List ℕ) (s : Indexer e)
      → IsReady s
      → s.batch ≡ []
      → s.is_stopped ≡ true
      → length s.queue < productive ns
      → IsEnded s (work e ns s)
  unfolding work finish
  work-IsEnded [] s r empty stopped h = absurd (omega arith)
  work-IsEnded (n ∷ ns) s r empty stopped h = elim (Bool-cases (is_over e s)) [
    | inl over ↦ rw (r.0, over) (refl, is_nil-nil s.queue (ground arith), empty, refl)
    | inr more ↦
        let taken = gather e n s in
        let sent = flush-IsSent taken (gather-IsReady n s r) in
        let later =
          work-IsEnded ns (flush e taken) sent.0 sent.1 (sent.3 ∙ is_stopped-gather n s ∙ stopped)
            (omega (arith, ap length sent.2, gather-productive n ns s r empty stopped more h)) in
        subst (IsEnded s) (sym (work-next n ns s r.0 more))
          (later.0, later.1, later.2, later.3 ∙ sent.4 ∙ accounted-gather n s)
  ]

  -- After `close`, where nothing more is added, every document has a day and a batch takes one at
  -- least: the worker ends by the condition of its own loop, with no document in the queue or in its
  -- batch, and every document that waited is in a counter. It takes as many iterations as there
  -- are documents, and one more, of those whose inner loop goes round before the deadline.
  pub work-ends :
      (ns : List ℕ) (s : Indexer e)
      → IsReady s
      → s.batch ≡ []
      → length s.queue < productive ns
      → let t = work e ns (stop e s) in
        (t.is_running ≡ false)
        × (t.queue ≡ [])
        × (t.batch ≡ [])
        × (t.indexed + t.failed + t.dropped ≡ s.indexed + s.failed + s.dropped + length s.queue)
  unfolding stop
  work-ends ns s r empty h =
      let over = work-IsEnded ns (stop e s) r empty refl h in
      (
        over.0,
        over.1,
        over.2,
        omega (arith, over.3, ap length over.1, ap length over.2, ap length empty),
      )
