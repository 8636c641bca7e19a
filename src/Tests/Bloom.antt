-- ===== src/Tests/Bloom.antt =====
-- A Redis that keeps for each bit the first moment at which it is gone, and a filter with two hashes.
use distrosense.Base.{
  ℕ, suc, ◌+◌, ◌≤◌, max, Bool, true, false, ◌&&◌, List, [], ◌∷◌, ◌≡◌, refl, ok, raised, Result,
  arith, ltb, if◌then◌else◌, elem, All, All-map, all, map, option_eq, ==_refl, string_eq, nat_eq,
  ◌==◌, subst, ap,
}
use distrosense.Ingestion.Bloom.{Redis, Key, RedisBloomFilter, seen_or_add}
use distrosense.Ingestion.Bloom.Remembered.{IsRedis, run, seen_or_add-remembers}

abbrev World : Type 0
World = Key → ℕ → ℕ

abbrev is_key : Key → Key → Bool
is_key k j = (k.prefix == j.prefix) && (k.bucket == j.bucket)

abbrev read : World → ℕ → Key → List ℕ → List Bool
read w now k ps = map (λ p. ltb now (w k p)) ps

abbrev write : World → ℕ → Key → List ℕ → ℕ → World
write w now k ps ttl j p = max (w j p) (if is_key k j && elem p ps then suc (now + ttl) else 0)

abbrev redis : Redis
redis = record {
  digest = λ s. (5, 4);
  W = World;
  get_bits = λ w now k j ps. ok (read w now k ps, read w now j ps);
  set_bits = λ w now k ps ttl. (write w now k ps ttl, true);
}

all-read :
    (w : World) (now t : ℕ) (k : Key) (ps : List ℕ)
    → now ≤ t
    → All (λ p. suc t ≤ w k p) ps
    → all (λ bit. bit) (read w now k ps) ≡ true
all-read w now t k [] le h = refl
all-read w now t k (p ∷ ps) le h =
    let later : ltb now (w k p) ≡ true = ground (arith, h.0) in
    rw later (all-read w now t k ps le h.1)

All-elem_more :
    (q : ℕ) (ps qs : List ℕ) → All (λ p. elem p ps ≡ true) qs → All (λ p. elem p (q ∷ ps) ≡ true) qs
All-elem_more q ps qs h = All-map (λ p e. ground arith) qs h

All-elem_self : (ps : List ℕ) → All (λ p. elem p ps ≡ true) ps
All-elem_self [] = tt
All-elem_self (p ∷ ps) = (rw (==_refl p) refl, All-elem_more p ps ps (All-elem_self ps))

is_key_refl : (k : Key) → is_key k k ≡ true
is_key_refl k = rw (==_refl k.prefix, ==_refl k.bucket) refl

written :
    (w : World) (now : ℕ) (k : Key) (ps : List ℕ) (ttl : ℕ)
    → All (λ p. suc (now + ttl) ≤ write w now k ps ttl k p) ps
written w now k ps ttl = All-map (λ p e. rw (is_key_refl k, e) (omega arith)) ps (All-elem_self ps)

redis_law : IsRedis redis
redis_law = record {
  IsKept = λ w k p t. suc t ≤ w k p;
  get_current = λ w now k j ps a b e t le h.
      subst (λ r. all (λ bit. bit) (first_of r) ≡ true) e (all-read w now t k ps le h);
  get_previous = λ w now k j ps a b e t le h.
      subst (λ r. all (λ bit. bit) (second_of r) ≡ true) e (all-read w now t j ps le h);
  set_keeps = λ w after now k ps ttl e.
      subst (λ v. All (λ p. suc (now + ttl) ≤ v k p) ps) (ap (λ r. r.0) e) (written w now k ps ttl);
  set_others = λ w now k ps ttl j p t le h. omega arith;
}
  where
    first_of : Result (List Bool × List Bool) → List Bool
    first_of raised = []
    first_of (ok (a, b)) = a

    second_of : Result (List Bool × List Bool) → List Bool
    second_of raised = []
    second_of (ok (a, b)) = b

-- buckets of one second
abbrev filter : RedisBloomFilter redis
filter = record {
  prefix = "bloom:span";
  bucket_seconds = 1;
  num_bits = 10;
  num_hashes = 2;
  world = λ k p. 0;
}

new_item : (seen_or_add redis filter 2500 "a").1 ≡ ok false
unfolding seen_or_add
new_item = refl

seen_item :
    (seen_or_add redis (run redis (seen_or_add redis filter 2500 "a").0 []) 3999 "a").1 ≡ ok true
unfolding seen_or_add run
seen_item = refl

seen_or_add-remembers_example : true ≡ true
seen_or_add-remembers_example =
    seen_or_add-remembers redis redis_law filter 2500 3999 "a" [] true (omega arith) new_item tt
      (omega arith) (omega arith) seen_item

-- two buckets later the item is new again
forgotten : (seen_or_add redis (seen_or_add redis filter 2500 "a").0 7000 "a").1 ≡ ok false
unfolding seen_or_add
forgotten = refl
