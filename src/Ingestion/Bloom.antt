-- ===== src/Ingestion/Bloom.antt =====
-- ingestion/dedup/redis_bloom.py. BLAKE2's digest and Redis are parameters; the clock, in
-- milliseconds, is an argument. The number of bits and of hashes, which __init__ computes with
-- logarithms, are fields. The key of a bucket is its prefix with its number, none for bucket -1.
pub mod Remembered
use distrosense.Base.{
  ℕ, zero, suc, ◌+◌, ◌-◌, ◌*◌, ◌/◌, ◌%◌, String, Bool, true, false, ◌||◌, Option, none, some, List,
  [], ◌∷◌, length, all, map, Result, ok, raised, ◌>>=◌, if◌then◌else◌,
}

pub record Key : Type 0 where
  pub prefix : String
  pub bucket : Option ℕ

-- The two halves of the digest, and the pipelines that the filter executes: GETBIT of positions under
-- two keys, and SETBIT of positions with EXPIRE, each at a time.
pub record Redis : Type 1 where
  pub digest : String → ℕ × ℕ
  pub W : Type 0
  pub get_bits : W → ℕ → Key → Key → List ℕ → Result (List Bool × List Bool)
  pub set_bits : W → ℕ → Key → List ℕ → ℕ → W × Bool

module _ (redis : Redis) where
  open redis use {digest, W, get_bits, set_bits}

  pub record RedisBloomFilter : Type 0 where
    pub prefix : String
    pub bucket_seconds : ℕ
    pub num_bits : ℕ
    pub num_hashes : ℕ
    pub world : W

  -- h | 1
  abbrev pub make_odd : ℕ → ℕ
  make_odd h = h + (1 - h % 2)

  -- [(h1 + i * h2) % num_bits for i in range(i, i + n)]
  unfoldable pub positions_from : ℕ → ℕ → ℕ → ℕ → ℕ → List ℕ
  positions_from bits h1 h2 i zero = []
  positions_from bits h1 h2 i (suc n) = (h1 + i * h2) % bits ∷ positions_from bits h1 h2 (suc i) n

  unfoldable pub positions : RedisBloomFilter → String → List ℕ
  unfolding positions_from
  positions f item =
      let (h1, h2) = digest item in positions_from f.num_bits h1 (make_odd h2) 0 f.num_hashes

  abbrev pub key : RedisBloomFilter → Option ℕ → Key
  key f bucket = record { prefix = f.prefix; bucket = bucket }

  abbrev pub before : ℕ → Option ℕ
  before zero = none
  before (suc bucket) = some bucket

  -- the bucket of a time in milliseconds
  abbrev pub bucket_at : RedisBloomFilter → ℕ → ℕ
  bucket_at f now = now / (1000 * f.bucket_seconds)

  -- how long a bucket is kept, in milliseconds
  abbrev pub kept_for : RedisBloomFilter → ℕ
  kept_for f = 1000 * (2 * f.bucket_seconds + 60)

  abbrev pub recorded : RedisBloomFilter → W × Bool → RedisBloomFilter × Result Bool
  recorded f (w, true) = (record f { world = w }, ok false)
  recorded f (w, false) = (record f { world = w }, raised)

  abbrev pub decide :
      RedisBloomFilter
      → ℕ
      → List ℕ
      → Result (List Bool × List Bool)
      → RedisBloomFilter × Result Bool
  decide f now ps raised = (f, raised)
  decide f now ps (ok (current, previous)) =
      if all (λ b. b) current || all (λ b. b) previous
      then (f, ok true)
      else recorded f (set_bits f.world now (key f (some (bucket_at f now))) ps (kept_for f))

  unfoldable pub seen_or_add : RedisBloomFilter → ℕ → String → RedisBloomFilter × Result Bool
  unfolding positions
  seen_or_add f now item =
      let ps = positions f item in
      let bucket = bucket_at f now in
      decide f now ps (get_bits f.world now (key f (some bucket)) (key f (before bucket)) ps)
