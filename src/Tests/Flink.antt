-- ===== src/Tests/Flink.antt =====
-- Deduplication with a list for a Bloom filter, of a given capacity, and a dictionary for the state.
use distrosense.Base.{
  ℕ, ◌+◌, ◌<◌, ◌≤◌, ◌≡◌, ◌≢◌, refl, String, true, Option, none, some, List, [], ◌∷◌, ok, arith,
  elem, length, string_eq, ==_refl, if◌then◌else◌, ltb,
}
use distrosense.Base.Dict.{Dict, get, put, get-put}
use distrosense.Flink.Dedup.{
  BloomFilter, ValueState, rotate_if_due, new_bloom, maybe_contains, add, DeduplicationFilter,
  open_filter, process_element, run, is_some,
}
use distrosense.Flink.Dedup.Exact.{Roomy, plain, run-plain}

insert : ℕ → List String → String → Option (List String)
insert capacity b key = if ltb (length b) capacity then some (key ∷ b) else none

contains_new :
    (capacity : ℕ) (b c : List String) (key : String)
    → insert capacity b key ≡ some c
    → elem key c ≡ true
unfolding insert
contains_new capacity b c key h = ground (arith, ==_refl key)

contains_old :
    (capacity : ℕ) (b c : List String) (key other : String)
    → insert capacity b key ≡ some c
    → elem other b ≡ true
    → elem other c ≡ true
unfolding insert
contains_old capacity b c key other h m = ground arith

abbrev bloom : ℕ → BloomFilter
bloom capacity = record {
  Filter = List String;
  empty = [];
  contains = λ b key. elem key b;
  insert = insert capacity;
  contains_new = contains_new capacity;
  contains_old = contains_old capacity;
}

unexpired : ℕ → Option (ℕ × ℕ) → Option ℕ
unexpired now none = none
unexpired now (some (written, v)) = if ltb now (written + 600000) then some v else none

value_same :
    (s : Dict String (ℕ × ℕ)) (written now : ℕ) (key : String) (v : ℕ)
    → unexpired now (get (put s key (written, v)) key)
      ≡ (if ltb now (written + 600000) then some v else none)
unfolding unexpired
value_same s written now key v = rw (get-put s key key (written, v), ==_refl key) refl

value_other :
    (s : Dict String (ℕ × ℕ)) (written now : ℕ) (key other : String) (v : ℕ)
    → key ≢ other
    → unexpired now (get (put s key (written, v)) other) ≡ unexpired now (get s other)
value_other s written now key other v h =
    ground (arith, get-put s key other (written, v), string_eq.beq_iff key other)

abbrev state : ValueState 600000
state = record {
  Store = Dict String (ℕ × ℕ);
  value = λ s now key. unexpired now (get s key);
  update = λ s written key v. put s key (written, v);
  value_same = λ s written now key v h. value_same s written now key v;
  value_other = value_other;
}

program : Unit {0}
unfolding run process_element rotate_if_due new_bloom maybe_contains add open_filter insert
    unexpired get put
program = tt

-- the key "a" comes again before and after its time is over
abbrev events : List (ℕ × String)
events = (1000, "a") ∷ (601500, "b") ∷ (601600, "a") ∷ []

abbrev start : DeduplicationFilter 600000 (bloom 100) state
start = open_filter 600000 (bloom 100) state 1000 []

events_kept : run 600000 (bloom 100) state start events ≡ ok (true ∷ true ∷ true ∷ [])
unfolding program
events_kept = refl

has_room : (n : ℕ) (key : String) (b : List String) → length b < 100 → insert 100 b key ≢ none
unfolding insert
has_room n key b h e = ground arith

events-Roomy : Roomy 600000 (bloom 100) state (omega arith) start events
unfolding program
events-Roomy = ((λ e. cc), ((λ e. cc), ((λ e. cc), tt)))

none_before :
    (key : String) (u : ℕ)
    → 1000 ≤ u
    → is_some 600000 (bloom 100) state (unexpired u (get [] key)) ≡ true
    → u < 601000
unfolding program
none_before key u h live = cc

run-plain_example :
    run 600000 (bloom 100) state start events
    ≡ ok (plain 600000 (bloom 100) state (omega arith) [] events)
run-plain_example =
    run-plain 600000 (bloom 100) state (omega arith) 1000 [] events none_before
      (omega arith, (omega arith, (omega arith, tt))) events-Roomy

-- A Bloom filter for one key: two early replacements forget the key "a", and it is yielded twice
-- within its time to live.
burst_repeats :
    run 600000
      (bloom 1)
      state
      (open_filter 600000 (bloom 1) state 1000 [])
      ((601000, "a") ∷ (601001, "b") ∷ (601002, "c") ∷ (601003, "a") ∷ [])
    ≡ ok (true ∷ true ∷ true ∷ true ∷ [])
unfolding program
burst_repeats = refl
