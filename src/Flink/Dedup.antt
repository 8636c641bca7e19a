-- ===== src/Flink/Dedup.antt =====
-- flink_jobs/operators/deduplication_filter.py. The Bloom filter of pybloom and Flink's keyed state
-- are not part of the program: they are parameters. One reading of the clock, in milliseconds,
-- serves a whole call. A call that raises fails the task, so nothing of it remains.
pub mod Covers
pub mod Exact
use distrosense.Base.{
  ℕ, suc, ◌+◌, ◌≤◌, ◌≡◌, ◌≢◌, List, [], ◌∷◌, String, Bool, true, false, Option, none, some, Result,
  ok, raised, ◌>>=◌, leb, ltb, if◌then◌else◌, ◌||◌,
}

-- pybloom's BloomFilter with its capacity: `add` is `none` where it raises IndexError.
pub record BloomFilter : Type 1 where
  pub Filter : Type 0
  pub empty : Filter
  pub contains : Filter → String → Bool
  pub insert : Filter → String → Option Filter
  pub contains_new : (b c : Filter) (key : String) → insert b key ≡ some c → contains c key ≡ true
  pub contains_old :
      (b c : Filter) (key other : String)
      → insert b key ≡ some c
      → contains b other ≡ true
      → contains c other ≡ true

-- Flink's ValueState for each key, with a time to live that starts at a write. An expired value is
-- never returned.
pub record ValueState (ttl : ℕ) : Type 1 where
  pub Store : Type 0
  pub value : Store → ℕ → String → Option ℕ
  pub update : Store → ℕ → String → ℕ → Store
  pub value_same :
      (s : Store) (written now : ℕ) (key : String) (v : ℕ)
      → written ≤ now
      → value (update s written key v) now key ≡ (if ltb now (written + ttl) then some v else none)
  pub value_other :
      (s : Store) (written now : ℕ) (key other : String) (v : ℕ)
      → key ≢ other
      → value (update s written key v) now other ≡ value s now other

module _ (ttl : ℕ) (bf : BloomFilter) where
  open bf use {Filter, empty, contains, insert}

  pub record RotatingBloom : Type 0 where
    pub started_ms : ℕ
    pub rotated_ms : ℕ
    pub cur : Filter
    pub prev : Option Filter

  -- `__init__`
  unfoldable pub new_bloom : ℕ → RotatingBloom
  new_bloom now = record { started_ms = now; rotated_ms = now; cur = empty; prev = none }

  unfoldable pub rotate_if_due : ℕ → RotatingBloom → RotatingBloom
  rotate_if_due now b =
      if leb (b.rotated_ms + ttl) now
      then record b { rotated_ms = now; cur = empty; prev = some b.cur }
      else b

  abbrev pub is_warm : ℕ → RotatingBloom → Bool
  is_warm now b = leb (b.started_ms + ttl) now

  abbrev pub prev_contains : Option Filter → String → Bool
  prev_contains none key = false
  prev_contains (some b) key = contains b key

  unfoldable pub maybe_contains : ℕ → RotatingBloom → String → RotatingBloom × Bool
  maybe_contains now b key =
      let b' = rotate_if_due now b in (b', contains b'.cur key || prev_contains b'.prev key)

  -- the generation is full: it is replaced early
  abbrev pub replaced : ℕ → RotatingBloom → Option Filter → Result RotatingBloom
  replaced now b none = raised
  replaced now b (some c) = ok (record b { rotated_ms = now; cur = c; prev = some b.cur })

  abbrev pub added : ℕ → RotatingBloom → String → Option Filter → Result RotatingBloom
  added now b key none = replaced now b (insert empty key)
  added now b key (some c) = ok (record b { cur = c })

  unfoldable pub add : ℕ → RotatingBloom → String → Result RotatingBloom
  add now b key = let b' = rotate_if_due now b in added now b' key (insert b'.cur key)

module _ (ttl : ℕ) (bf : BloomFilter) (vs : ValueState ttl) where
  open vs use {Store, value, update}

  -- `_seen`, `_bloom`, and the counters
  pub record DeduplicationFilter : Type 0 where
    pub seen : Store
    pub bloom : RotatingBloom ttl bf
    pub bloom_skipped_lookups : ℕ
    pub state_lookups : ℕ
    pub dedup_dropped : ℕ
    pub events_processed : ℕ

  -- `open`, on the state that the last checkpoint holds
  unfoldable pub open_filter : ℕ → Store → DeduplicationFilter
  unfolding new_bloom
  open_filter now seen = record {
    seen = seen;
    bloom = new_bloom ttl bf now;
    bloom_skipped_lookups = 0;
    state_lookups = 0;
    dedup_dropped = 0;
    events_processed = 0;
  }

  -- from `self._seen.update` on: the event is yielded
  unfoldable pub keep : ℕ → DeduplicationFilter → String → Result (DeduplicationFilter × Bool)
  keep now f span_id = do
    b ← add ttl bf now f.bloom span_id
    ok (
      record f {
        seen = update f.seen now span_id now;
        bloom = b;
        events_processed = suc f.events_processed;
      },
      true,
    )

  -- the branch of a value that is there
  unfoldable pub drop : ℕ → DeduplicationFilter → String → Result (DeduplicationFilter × Bool)
  drop now f span_id = do
    b ← add ttl bf now f.bloom span_id
    ok (record f { bloom = b; dedup_dropped = suc f.dedup_dropped }, false)

  abbrev pub is_some : Option ℕ → Bool
  is_some none = false
  is_some (some _) = true

  -- the `else` branch
  unfoldable pub lookup : ℕ → DeduplicationFilter → String → Result (DeduplicationFilter × Bool)
  unfolding keep drop
  lookup now f span_id =
      let g = record f { state_lookups = suc f.state_lookups } in
      if is_some (value f.seen now span_id) then drop now g span_id else keep now g span_id

  -- behind the Bloom filter's answer
  unfoldable pub decide :
      ℕ → DeduplicationFilter → String → Bool → Result (DeduplicationFilter × Bool)
  unfolding lookup keep
  decide now f span_id true = lookup now f span_id
  decide now f span_id false =
      keep now (record f { bloom_skipped_lookups = suc f.bloom_skipped_lookups }) span_id

  -- The Boolean tells whether the event is yielded.
  unfoldable pub process_element :
      ℕ → DeduplicationFilter → String → Result (DeduplicationFilter × Bool)
  unfolding decide lookup maybe_contains
  process_element now f span_id =
      if is_warm ttl bf now f.bloom
      then (let (b, maybe) = maybe_contains ttl bf now f.bloom span_id in
          decide now (record f { bloom = b }) span_id maybe)
      else lookup now f span_id

  -- one task over a sequence of events, each with the clock's reading: what it yields
  unfoldable pub run : DeduplicationFilter → List (ℕ × String) → Result (List Bool)
  unfolding process_element
  run f [] = ok []
  run f ((now, span_id) ∷ rest) = elim (process_element now f span_id) [
    | raised ↦ raised
    | ok p ↦ elim (run p.0 rest) [ raised ↦ raised | ok out ↦ ok (p.1 ∷ out) ]
  ]
