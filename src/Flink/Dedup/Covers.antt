-- ===== src/Flink/Dedup/Covers.antt =====
-- flink_jobs/operators/deduplication_filter.py: what the rotating Bloom filter knows of the keys that
-- the state holds.
use distrosense.Base.{
  ℕ, ◌+◌, ◌≤◌, ◌<◌, ◌≡◌, ◌≢◌, refl, sym, subst, String, true, false, none, Result, ok, leb, ◌⊎◌,
  inl, inr, arith, Bool-cases, Option-cases, string_eq, ◌==◌,
}
use distrosense.Flink.Dedup.{
  BloomFilter, ValueState, RotatingBloom, rotate_if_due, is_warm, prev_contains, maybe_contains,
  add, is_some,
}

module _ (ttl : ℕ) (bf : BloomFilter) (vs : ValueState ttl) where
  open bf use {contains, insert, contains_new, contains_old}
  open vs use {Store, value, update, value_same, value_other}

  -- Every value that is live at `u` is at most a time to live old, and unless it is from before the
  -- start, its key is in the filter.
  pub record Covers (now : ℕ) (s : Store) (b : RotatingBloom ttl bf) : Type 0 where
    pub fresh :
        (key : String) (u : ℕ) → now ≤ u → is_some ttl bf vs (value s u key) ≡ true → u < now + ttl
    pub covered :
        (key : String) (u : ℕ)
        → now ≤ u
        → is_some ttl bf vs (value s u key) ≡ true
        → (u < b.started_ms + ttl)
          ⊎ ((contains b.cur key ≡ true)
              ⊎ ((prev_contains ttl bf b.prev key ≡ true) × (u < b.rotated_ms + ttl)))

  pub rotate-Covers :
      (now n : ℕ) (s : Store) (b : RotatingBloom ttl bf)
      → now ≤ n
      → Covers now s b
      → Covers n s (rotate_if_due ttl bf n b)
  unfolding rotate_if_due
  rotate-Covers now n s b le c = elim (Bool-cases (leb (b.rotated_ms + ttl) n)) [
    | inr early ↦ rw early (record {
      fresh = λ key u h live. omega (arith, c.fresh key u (omega arith) live);
      covered = λ key u h live. c.covered key u (omega arith) live;
    })
    | inl due ↦ rw due (record {
      fresh = λ key u h live. omega (arith, c.fresh key u (omega arith) live);
      covered = λ key u h live. elim (c.covered key u (omega arith) live) [
        | inl old ↦ inl old
        | inr (inl here) ↦ inr (inr (here, omega (arith, c.fresh key u (omega arith) live)))
        | inr (inr (_, late)) ↦ absurd (ground arith)
      ];
    })
  ]

  -- The generation in use takes the key.
  abbrev pub HasRoom : ℕ → RotatingBloom ttl bf → String → Type 0
  HasRoom n b key = insert (rotate_if_due ttl bf n b).cur key ≢ none

  pub record Added (n : ℕ) (s : Store) (b : RotatingBloom ttl bf) (key : String)
      (r : Result (RotatingBloom ttl bf)) : Type 0 where
    pub after : RotatingBloom ttl bf
    pub done : r ≡ ok after
    pub here : contains after.cur key ≡ true
    pub still : Covers n s after

  pub add-Added :
      (now n : ℕ) (s : Store) (b : RotatingBloom ttl bf) (key : String)
      → now ≤ n
      → Covers now s b
      → HasRoom n b key
      → Added n s b key (add ttl bf n b key)
  unfolding add
  add-Added now n s b key le c room =
      let r = rotate_if_due ttl bf n b in
      let k = rotate-Covers now n s b le c in
      elim (Option-cases (insert r.cur key)) [
        | inl full ↦ absurd (room full)
        | inr (d, e) ↦ record {
          after = record r { cur = d };
          done = rw (e, add) refl;
          here = contains_new r.cur d key e;
          still = record {
            fresh = k.fresh;
            covered = λ other u h live. elim (k.covered other u h live) [
              | inl old ↦ inl old
              | inr (inl m) ↦ inr (inl (contains_old r.cur d key other e m))
              | inr (inr m) ↦ inr (inr m)
            ];
          };
        }
      ]

  live-update :
      (n u : ℕ) (s : Store) (key other : String)
      → n ≤ u
      → is_some ttl bf vs (value (update s n key n) u other) ≡ true
      → ((key ≡ other) × (u < n + ttl)) ⊎ (is_some ttl bf vs (value s u other) ≡ true)
  live-update n u s key other h live = elim (Bool-cases (key == other)) [
    | inl e ↦
        let same = (string_eq.beq_iff key other).0 e in
        let here : is_some ttl bf vs (value (update s n key n) u key) ≡ true =
          subst (λ o. is_some ttl bf vs (value (update s n key n) u o) ≡ true) (sym same) live in
        inl (same, ground (arith, value_same s n u key n h))
    | inr e ↦ inr (
        ground
          (arith, value_other s n u key other n (λ q. ground (arith, string_eq.beq_iff key other))))
  ]

  pub update-Covers :
      (n : ℕ) (s : Store) (b : RotatingBloom ttl bf) (key : String)
      → contains b.cur key ≡ true
      → Covers n s b
      → Covers n (update s n key n) b
  update-Covers n s b key here c = record {
    fresh = λ other u h live. elim (live-update n u s key other h live) [
      | inl (same, young) ↦ young
      | inr before ↦ c.fresh other u h before
    ];
    covered = λ other u h live. elim (live-update n u s key other h live) [
      | inl (same, young) ↦ inr (inl (subst (λ o. contains b.cur o ≡ true) same here))
      | inr before ↦ c.covered other u h before
    ];
  }

  pub rotate_again :
      (n : ℕ) (b : RotatingBloom ttl bf)
      → 0 < ttl
      → rotate_if_due ttl bf n (rotate_if_due ttl bf n b) ≡ rotate_if_due ttl bf n b
  unfolding rotate_if_due
  rotate_again n b positive = ground (arith, positive)

  started-rotate :
      (n : ℕ) (b : RotatingBloom ttl bf) → (rotate_if_due ttl bf n b).started_ms ≡ b.started_ms
  unfolding rotate_if_due
  started-rotate n b = ground arith

  -- a warm filter that misses a key is right
  pub missed :
      (now n : ℕ) (s : Store) (b : RotatingBloom ttl bf) (key : String)
      → now ≤ n
      → Covers now s b
      → is_warm ttl bf n b ≡ true
      → (maybe_contains ttl bf n b key).1 ≡ false
      → is_some ttl bf vs (value s n key) ≡ false
  unfolding maybe_contains
  missed now n s b key le c warm miss = elim (Bool-cases (is_some ttl bf vs (value s n key))) [
    | inr new ↦ new
    | inl live ↦ elim ((rotate-Covers now n s b le c).covered key n (omega arith) live) [
      | inl old ↦ ground (arith, started-rotate n b)
      | inr (inl m) ↦ ground arith
      | inr (inr (m, _)) ↦ ground arith
    ]
  ]
