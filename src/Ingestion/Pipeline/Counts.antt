-- ===== src/Ingestion/Pipeline/Counts.antt =====
-- The counters and the response account for every span.
use distrosense.Base.{
  ◌<◌, ℕ, ◌+◌, ◌≡◌, Bool, true, false, List, length, Result, ok, raised, if◌then◌else◌, ◌↔◌, nat_eq,
}
use distrosense.Ingestion.Pipeline.{
  IngestResponse, Values, Services, Pipeline, Outcome, accepted, rejected, duplicate, failed, count,
  same,
}

-- whether a call returned this outcome
abbrev returned : Outcome → Result Outcome → Bool
returned k raised = false
returned k (ok x) = same k x

module _ (v : Values) (o : Services v) where
  -- one span more is received, and the counter of its outcome goes up by one
  record Counted (before : Pipeline v o) (r : Pipeline v o × Result Outcome) : Type 0 where
    received : r.0.spans_received ≡ before.spans_received
    taken : r.0.spans_accepted ≡ before.spans_accepted + (if returned accepted r.1 then 1 else 0)
    pub refused :
        r.0.spans_rejected ≡ before.spans_rejected + (if returned rejected r.1 then 1 else 0)
    pub repeated :
        r.0.spans_duplicate ≡ before.spans_duplicate + (if returned duplicate r.1 then 1 else 0)

  -- The counters after a batch of n spans with these outcomes: each went up by the number of its
  -- outcomes. Where a span raised, it was received and the spans behind it were not.
  pub record Accounted (p q : Pipeline v o) (n : ℕ) (found : List Outcome) (done : Bool)
      : Type 0 where
    pub received : q.spans_received ≡ p.spans_received + length found + (if done then 0 else 1)
    pub taken : q.spans_accepted ≡ p.spans_accepted + count accepted found
    pub refused : q.spans_rejected ≡ p.spans_rejected + count rejected found
    pub repeated : q.spans_duplicate ≡ p.spans_duplicate + count duplicate found
    pub everyone :
        length found
        ≡ count accepted found
          + (count rejected found + (count duplicate found + count failed found))
    pub all : done ≡ true → length found ≡ n
    pub fewer : done ≡ false → length found < n

  -- the answer to a batch of n spans with these outcomes
  pub record Answered (p q : Pipeline v o) (n : ℕ) (found : List Outcome) (r : IngestResponse)
      : Type 0 where
    pub everyone : length found ≡ n
    pub reported : q.spans_accepted ≡ p.spans_accepted + r.spans_accepted
    pub succeeds : (r.success ≡ true) ↔ (n ≡ count accepted found + count duplicate found)
