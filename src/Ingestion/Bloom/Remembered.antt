-- ===== src/Ingestion/Bloom/Remembered.antt =====
-- The filter of ingestion/dedup/redis_bloom.py forgets nothing before its time.
use native.Mathlib.Nat.{lt-div-mul-add, le-div_iff_mul-le, div-mul-le_self}
use distrosense.Base.{
  sym, All-map, subst, Bool-cases, ℕ, suc, ◌+◌, ◌*◌, ◌/◌, ◌≤◌, ◌<◌, String, Bool, true, false, ◌||◌,
  some, List, [], ◌∷◌, all, Result, ok, raised, arith, ◌≡◌, refl, All, inl, inr, ◌⊎◌,
}
use distrosense.Ingestion.Bloom.{
  Redis, Key, RedisBloomFilter, positions, key, before, bucket_at, kept_for, recorded, decide,
  seen_or_add,
}

-- What Redis documents. `IsKept w k p t`: bit p of key k is 1, and the key does not expire before t.
pub record IsRedis (redis : Redis) : Type 1 where
  pub IsKept : redis.W → Key → ℕ → ℕ → Type 0
  -- a kept bit is read as 1
  pub get_current :
      (w : redis.W) (now : ℕ) (k j : Key) (ps : List ℕ) (a b : List Bool)
      → redis.get_bits w now k j ps ≡ ok (a, b)
      → (t : ℕ) → now ≤ t
      → All (λ p. IsKept w k p t) ps
      → all (λ bit. bit) a ≡ true
  pub get_previous :
      (w : redis.W) (now : ℕ) (k j : Key) (ps : List ℕ) (a b : List Bool)
      → redis.get_bits w now k j ps ≡ ok (a, b)
      → (t : ℕ) → now ≤ t
      → All (λ p. IsKept w j p t) ps
      → all (λ bit. bit) b ≡ true
  -- SETBIT with EXPIRE keeps the bits until the key expires
  pub set_keeps :
      (w after : redis.W) (now : ℕ) (k : Key) (ps : List ℕ) (ttl : ℕ)
      → redis.set_bits w now k ps ttl ≡ (after, true)
      → All (λ p. IsKept after k p (now + ttl)) ps
  -- and moves no key's expiry before its own, whether the pipeline returns or raises
  pub set_others :
      (w : redis.W) (now : ℕ) (k : Key) (ps : List ℕ) (ttl : ℕ) (j : Key) (p t : ℕ)
      → t ≤ now + ttl
      → IsKept w j p t
      → IsKept (redis.set_bits w now k ps ttl).0 j p t

-- the end of the next bucket
div_bounds :
    (now later size : ℕ) → 0 < size → later / size ≤ suc (now / size) → later ≤ now + 2 * size
div_bounds now later size pos h =
    grind (arith, lt-div-mul-add {a = later} {b = size} pos, div-mul-le_self now size)

div_mono : (now later size : ℕ) → 0 < size → now ≤ later → now / size ≤ later / size
div_mono now later size pos le =
    (le-div_iff_mul-le {k = size} {x = now / size} {y = later} pos).1
      (omega (arith, div-mul-le_self now size))

-- the later bucket is the same or the next one
same_or_next :
    (now later size : ℕ)
    → 0 < size
    → now ≤ later
    → later / size ≤ suc (now / size)
    → (later / size ≡ now / size) ⊎ (later / size ≡ suc (now / size))
same_or_next now later size pos le near = omega (arith, div_mono now later size pos le)

module _ (redis : Redis) where
  -- calls with their times
  unfoldable pub run : RedisBloomFilter redis → List (ℕ × String) → RedisBloomFilter redis
  run f [] = f
  run f ((now, item) ∷ calls) = run (seen_or_add redis f now item).0 calls

module _ (redis : Redis) (law : IsRedis redis) where
  open law use {IsKept, get_current, get_previous, set_keeps, set_others}

  -- what the call writes, and what it reads
  abbrev set_bucket : RedisBloomFilter redis → ℕ → List ℕ → redis.W × Bool
  set_bucket f now ps =
      redis.set_bits f.world now (key redis f (some (bucket_at redis f now))) ps (kept_for redis f)

  abbrev read_buckets : RedisBloomFilter redis → ℕ → List ℕ → Result (List Bool × List Bool)
  read_buckets f now ps =
      let bucket = bucket_at redis f now in
      redis.get_bits f.world now (key redis f (some bucket)) (key redis f (before redis bucket)) ps

  -- What a call leaves: the filter with another world, where no bit is lost that this call's own
  -- expiry outlives.
  abbrev IsAfter : RedisBloomFilter redis → RedisBloomFilter redis → ℕ → Type 0
  IsAfter f g now =
      (w : redis.W) × (g ≡ record f { world = w })
      × ((k : Key) (p t : ℕ) → t ≤ now + kept_for redis f → IsKept f.world k p t → IsKept w k p t)

  recorded-world :
      (f : RedisBloomFilter redis) (r : redis.W × Bool)
      → (recorded redis f r).0 ≡ record f { world = r.0 }
  recorded-world f (w, true) = refl
  recorded-world f (w, false) = refl

  decide-IsAfter :
      (f : RedisBloomFilter redis) (now : ℕ) (ps : List ℕ) (bits : Result (List Bool × List Bool))
      → IsAfter f (decide redis f now ps bits).0 now
  decide-IsAfter f now ps raised = (f.world, refl, λ k p t h kept. kept)
  decide-IsAfter f now ps (ok (a, b)) =
      elim (Bool-cases (all (λ bit. bit) a || all (λ bit. bit) b)) [
        | inl seen ↦ rw seen (f.world, refl, λ k p t h kept. kept)
        | inr new ↦ rw new (
          _,
          recorded-world f (set_bucket f now ps),
          λ k p t h kept.
              set_others f.world now (key redis f (some (bucket_at redis f now))) ps
                (kept_for redis f) k p t h kept,
        )
      ]

  seen_or_add-IsAfter :
      (f : RedisBloomFilter redis) (now : ℕ) (item : String)
      → IsAfter f (seen_or_add redis f now item).0 now
  unfolding seen_or_add
  seen_or_add-IsAfter f now item =
      decide-IsAfter f now (positions redis f item) (read_buckets f now (positions redis f item))

  run-IsAfter :
      (f : RedisBloomFilter redis) (now : ℕ) (calls : List (ℕ × String))
      → All (λ call. now ≤ call.0) calls
      → IsAfter f (run redis f calls) now
  unfolding run
  run-IsAfter f now [] h = (f.world, refl, λ k p t le kept. kept)
  run-IsAfter f now ((at, item) ∷ calls) h =
      let (w, same, keeps) = seen_or_add-IsAfter f at item in
      let g = (seen_or_add redis f at item).0 in
      let (v, after, kept) =
        subst (λ x. IsAfter x (run redis g calls) now) same (run-IsAfter g now calls h.1) in
      (v, after, λ k p t le bit. kept k p t le (keeps k p t (omega (arith, h.0, le)) bit))

  -- the bits that a call recorded, until they expire
  abbrev IsRecorded : RedisBloomFilter redis → redis.W → ℕ → List ℕ → Type 0
  IsRecorded f w now ps =
      All (λ p. IsKept w (key redis f (some (bucket_at redis f now))) p (now + kept_for redis f)) ps

  recorded-IsRecorded :
      (f : RedisBloomFilter redis) (now : ℕ) (ps : List ℕ) (r : redis.W × Bool)
      → set_bucket f now ps ≡ r
      → (recorded redis f r).1 ≡ ok false
      → IsRecorded f (recorded redis f r).0.world now ps
  recorded-IsRecorded f now ps (w, true) done h =
      set_keeps f.world w now (key redis f (some (bucket_at redis f now))) ps (kept_for redis f)
        done
  recorded-IsRecorded f now ps (w, false) done h = absurd (ground arith)

  decide-IsRecorded :
      (f : RedisBloomFilter redis) (now : ℕ) (ps : List ℕ) (bits : Result (List Bool × List Bool))
      → (decide redis f now ps bits).1 ≡ ok false
      → IsRecorded f (decide redis f now ps bits).0.world now ps
  decide-IsRecorded f now ps raised h = absurd (ground arith)
  decide-IsRecorded f now ps (ok (a, b)) h =
      elim (Bool-cases (all (λ bit. bit) a || all (λ bit. bit) b)) [
        | inl seen ↦ absurd (ground arith)
        | inr new ↦ rw new (recorded-IsRecorded f now ps (set_bucket f now ps) refl (ground arith))
      ]

  decide-seen :
      (f : RedisBloomFilter redis) (now t : ℕ) (ps : List ℕ) (bits : Result (List Bool × List Bool))
      (b : Bool)
      → read_buckets f now ps ≡ bits
      → now ≤ t
      → All (λ p. IsKept f.world (key redis f (some (bucket_at redis f now))) p t) ps
        ⊎ All (λ p. IsKept f.world (key redis f (before redis (bucket_at redis f now))) p t) ps
      → (decide redis f now ps bits).1 ≡ ok b
      → b ≡ true
  decide-seen f now t ps raised b same le kept h = absurd (ground arith)
  decide-seen f now t ps (ok (c, d)) b same le (inl kept) h =
      let bit = get_current f.world now _ _ ps c d same t le kept in ground arith
  decide-seen f now t ps (ok (c, d)) b same le (inr kept) h =
      let bit = get_previous f.world now _ _ ps c d same t le kept in ground arith

  -- the bits stand in one of the two buckets that a later call reads
  abbrev IsReadable : RedisBloomFilter redis → ℕ → ℕ → List ℕ → Type 0
  IsReadable f later t ps =
      All (λ p. IsKept f.world (key redis f (some (bucket_at redis f later))) p t) ps
      ⊎ All (λ p. IsKept f.world (key redis f (before redis (bucket_at redis f later))) p t) ps

  readable :
      (f : RedisBloomFilter redis) (now later t : ℕ) (ps : List ℕ)
      → 0 < f.bucket_seconds
      → now ≤ later
      → bucket_at redis f later ≤ suc (bucket_at redis f now)
      → All (λ p. IsKept f.world (key redis f (some (bucket_at redis f now))) p t) ps
      → IsReadable f later t ps
  readable f now later t ps pos le near kept =
      elim (same_or_next now later (1000 * f.bucket_seconds) (omega arith) le near) [
        | inl same ↦
            inl
              (subst (λ x. All (λ p. IsKept f.world (key redis f (some x)) p t) ps) (sym same) kept)
        | inr following ↦ inr (
            subst (λ x. All (λ p. IsKept f.world (key redis f (before redis x)) p t) ps)
              (sym following) kept)
      ]

  -- An item that the filter recorded is seen by every call that answers in the same bucket of time or
  -- in the next one, not earlier, whatever calls lie between: no false negative.
  pub seen_or_add-remembers :
      (f : RedisBloomFilter redis) (now later : ℕ) (item : String) (calls : List (ℕ × String))
      (b : Bool)
      → 0 < f.bucket_seconds
      → (seen_or_add redis f now item).1 ≡ ok false
      → All (λ call. now ≤ call.0) calls
      → now ≤ later
      → bucket_at redis f later ≤ suc (bucket_at redis f now)
      → (seen_or_add redis (run redis (seen_or_add redis f now item).0 calls) later item).1 ≡ ok b
      → b ≡ true
  unfolding seen_or_add positions
  seen_or_add-remembers f now later item calls b pos new h le near answer =
      let ps = positions redis f item in
      let first = decide-IsRecorded f now ps (read_buckets f now ps) new in
      let (w, same, _) = seen_or_add-IsAfter f now item in
      let g = (seen_or_add redis f now item).0 in
      let (v, after, keeps) =
        subst (λ x. IsAfter x (run redis g calls) now) same (run-IsAfter g now calls h) in
      let o : RedisBloomFilter redis = record f { world = v } in
      let t = now + kept_for redis f in
      let then_kept = subst (λ x. IsRecorded f x.world now ps) same first in
      let still_kept =
        All-map (λ p bit. keeps (key redis f (some (bucket_at redis f now))) p t (omega arith) bit)
          ps then_kept in
      let in_time : later ≤ t =
        omega (arith, div_bounds now later (1000 * f.bucket_seconds) (omega arith) near) in
      decide-seen o later t ps (read_buckets o later ps) b refl in_time
        (readable o now later t ps pos le near still_kept)
        (subst (λ x. (seen_or_add redis x later item).1 ≡ ok b) after answer)
