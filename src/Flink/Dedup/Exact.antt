-- ===== src/Flink/Dedup/Exact.antt =====
-- The Bloom filter in front of the state changes no answer.
use distrosense.Base.{
  raised, ℕ, suc, ◌+◌, ◌≤◌, ◌<◌, ◌≡◌, ◌≢◌, refl, sym, subst, String, Bool, true, false, not, none,
  Result, ok, if◌then◌else◌, inl, inr, List, [], ◌∷◌, arith, Bool-cases, string_eq,
}
use distrosense.Flink.Dedup.{
  BloomFilter, ValueState, new_bloom, rotate_if_due, is_warm, maybe_contains, DeduplicationFilter,
  open_filter, keep, drop, is_some, lookup, decide, process_element, run,
}
use distrosense.Flink.Dedup.Covers.{
  Covers, HasRoom, add-Added, missed, rotate-Covers, rotate_again, update-Covers,
}

module _ (ttl : ℕ) (bf : BloomFilter) (vs : ValueState ttl) (positive : 0 < ttl) where
  open bf use {insert}
  open vs use {Store, value, update}

  -- a call that yields its event, and one that drops it
  record Answered (n : ℕ) (s : Store) (yields : Bool)
      (r : Result (DeduplicationFilter ttl bf vs × Bool)) : Type 0 where
    after : DeduplicationFilter ttl bf vs
    done : r ≡ ok (after, yields)
    store : after.seen ≡ s
    still : Covers ttl bf vs n s after.bloom

  keep-Answered :
      (now n : ℕ) (f : DeduplicationFilter ttl bf vs) (key : String)
      → now ≤ n
      → Covers ttl bf vs now f.seen f.bloom
      → HasRoom ttl bf vs n f.bloom key
      → Answered n (update f.seen n key n) true (keep ttl bf vs n f key)
  unfolding keep
  keep-Answered now n f key le c room =
      let a = add-Added ttl bf vs now n f.seen f.bloom key le c room in
      rw (a.done, keep)
        (record {
          after = _;
          done = refl;
          store = refl;
          still = update-Covers ttl bf vs n f.seen a.after key a.here a.still;
        })

  drop-Answered :
      (now n : ℕ) (f : DeduplicationFilter ttl bf vs) (key : String)
      → now ≤ n
      → Covers ttl bf vs now f.seen f.bloom
      → HasRoom ttl bf vs n f.bloom key
      → Answered n f.seen false (drop ttl bf vs n f key)
  unfolding drop
  drop-Answered now n f key le c room =
      let a = add-Added ttl bf vs now n f.seen f.bloom key le c room in
      rw (a.done, drop) (record { after = _; done = refl; store = refl; still = a.still })

  -- What the state alone would do.
  abbrev pub is_new : ℕ → Store → String → Bool
  is_new n s key = not (is_some ttl bf vs (value s n key))

  abbrev pub seen_after : ℕ → Store → String → Store
  seen_after n s key = if is_new n s key then update s n key n else s

  lookup-Answered :
      (now n : ℕ) (f : DeduplicationFilter ttl bf vs) (key : String)
      → now ≤ n
      → Covers ttl bf vs now f.seen f.bloom
      → HasRoom ttl bf vs n f.bloom key
      → Answered n (seen_after n f.seen key) (is_new n f.seen key) (lookup ttl bf vs n f key)
  unfolding lookup
  lookup-Answered now n f key le c room =
      let g = record f { state_lookups = suc f.state_lookups } in
      elim (Bool-cases (is_some ttl bf vs (value f.seen n key))) [
        | inl old ↦ rw (old, lookup) (drop-Answered now n g key le c room)
        | inr new ↦ rw (new, lookup) (keep-Answered now n g key le c room)
      ]

  decide-Answered :
      (n : ℕ) (f : DeduplicationFilter ttl bf vs) (key : String) (maybe : Bool)
      → Covers ttl bf vs n f.seen f.bloom
      → HasRoom ttl bf vs n f.bloom key
      → (maybe ≡ false → is_some ttl bf vs (value f.seen n key) ≡ false)
      → Answered n (seen_after n f.seen key) (is_new n f.seen key) (decide ttl bf vs n f key maybe)
  unfolding decide
  decide-Answered n f key true c room h = lookup-Answered n n f key (omega arith) c room
  decide-Answered n f key false c room h = rw (h refl) (
      keep-Answered n n (record f { bloom_skipped_lookups = suc f.bloom_skipped_lookups }) key
        (omega arith) c room)

  process_element-Answered :
      (now n : ℕ) (f : DeduplicationFilter ttl bf vs) (key : String)
      → now ≤ n
      → Covers ttl bf vs now f.seen f.bloom
      → HasRoom ttl bf vs n f.bloom key
      → Answered n
          (seen_after n f.seen key)
          (is_new n f.seen key)
          (process_element ttl bf vs n f key)
  unfolding process_element maybe_contains
  process_element-Answered now n f key le c room = elim (Bool-cases (is_warm ttl bf n f.bloom)) [
    | inr cold ↦ rw (cold, process_element) (lookup-Answered now n f key le c room)
    | inl warm ↦
        rw (warm, process_element)
          (decide-Answered n (record f { bloom = rotate_if_due ttl bf n f.bloom }) key _
            (rotate-Covers ttl bf vs now n f.seen f.bloom le c)
            (subst (λ b. insert b.cur key ≢ none) (sym (rotate_again ttl bf vs n f.bloom positive))
              room)
            (λ miss. missed ttl bf vs now n f.seen f.bloom key le c warm miss))
  ]

  -- The clock does not go back.
  abbrev pub Ordered : ℕ → List (ℕ × String) → Type 0
  Ordered now [] = Unit
  Ordered now ((n, key) ∷ rest) = (now ≤ n) × Ordered n rest

  -- No generation fills up before its time.
  abbrev pub Roomy : DeduplicationFilter ttl bf vs → List (ℕ × String) → Type 0
  Roomy f [] = Unit
  Roomy f ((n, key) ∷ rest) =
      HasRoom ttl bf vs n f.bloom key
      × elim (process_element ttl bf vs n f key) [ raised ↦ Unit | ok p ↦ Roomy p.0 rest ]

  -- The filter without the Bloom filter: every event is looked up.
  pub plain : Store → List (ℕ × String) → List Bool
  plain s [] = []
  plain s ((n, key) ∷ rest) = is_new n s key ∷ plain (seen_after n s key) rest

  run-plain_from :
      (now : ℕ) (f : DeduplicationFilter ttl bf vs) (events : List (ℕ × String))
      → Covers ttl bf vs now f.seen f.bloom
      → Ordered now events
      → Roomy f events
      → run ttl bf vs f events ≡ ok (plain f.seen events)
  unfolding run plain
  run-plain_from now f [] c o r = refl
  run-plain_from now f ((n, key) ∷ rest) c o r =
      let a = process_element-Answered now n f key o.0 c r.0 in
      let later =
        run-plain_from n a.after rest
          (subst (λ s. Covers ttl bf vs n s a.after.bloom) (sym a.store) a.still) o.1
          (rw a.done at (r.1)) in
      rw (a.done, run, later, a.store) refl

  -- From the start of a task, on whatever state it restores that was written before the start, and
  -- with a clock that does not go back: as long as no Bloom generation fills up before its time, the
  -- task yields exactly the events that a lookup of every event would yield. No duplicate passes for
  -- the Bloom filter's sake, and no new event is dropped.
  pub run-plain :
      (start : ℕ) (s : Store) (events : List (ℕ × String))
      → ((key : String) (u : ℕ)
          → start ≤ u
          → is_some ttl bf vs (value s u key) ≡ true
          → u < start + ttl)
      → Ordered start events
      → Roomy (open_filter ttl bf vs start s) events
      → run ttl bf vs (open_filter ttl bf vs start s) events ≡ ok (plain s events)
  run-plain start s events old o r =
      unfold open_filter in
      run-plain_from start (open_filter ttl bf vs start s) events
        (unfold open_filter new_bloom in
          record { fresh = old; covered = λ key u h live. inl (old key u h live) })
        o r
