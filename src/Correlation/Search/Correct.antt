-- ===== src/Correlation/Search/Correct.antt =====
-- The search finds exactly the services that are connected to the first.
use distrosense.Base.{
  ◌∙◌, subst, sym, ◌⊎◌, ◌↔◌, ◌==◌, ◌||◌, ==_refl, refl, ℕ, zero, suc, ◌≡◌, String, true, List, [],
  ◌∷◌, arith, elem, elem-append, string_eq, length, List-cases, inl, inr,
}
use distrosense.Base.Dict.{Dict, has, keys}
use distrosense.Correlation.Search.{Frontier, related, offer, offer_all, search, start, component}
use distrosense.Correlation.Search.Ends.{component-ends}

module _ (get_related_services : String → List String) (owner : Dict String ℕ) where
  abbrev rel : String → List String
  rel = related get_related_services owner

  -- The walks over owned services, along the relation of the graph.
  pub data Reach (first : String) : String → Type 0 where
    here : Reach first first
    step :
        {u v : String} → Reach first u → elem v (rel u) ≡ true → has owner v ≡ true → Reach first v

module _ (get_related_services : String → List String) (owner : Dict String ℕ)
    (first : String) where
  abbrev Seen : Frontier → String → Type 0
  Seen s v = elem v s.visited ≡ true

  abbrev Walk : String → Type 0
  Walk = Reach get_related_services owner first

  record Inv (s : Frontier) : Type 0 where
    source : Seen s first
    queued : (v : String) → elem v s.frontier ≡ true → Seen s v
    sound : (v : String) → Seen s v → Walk v
    closed :
        (u v : String)
        → Seen s u
        → elem v (rel get_related_services owner u) ≡ true
        → has owner v ≡ true
        → (elem u s.frontier ≡ true) ⊎ Seen s v

  -- what the inner loop does to the sets
  record Grows (ns : List String) (s t : Frontier) : Type 0 where
    seen : (v : String) → (Seen t v) ↔ (Seen s v ⊎ ((elem v ns ≡ true) × (has owner v ≡ true)))
    waiting : (v : String) → elem v s.frontier ≡ true → elem v t.frontier ≡ true
    fresh : (v : String) → elem v t.frontier ≡ true → (elem v s.frontier ≡ true) ⊎ Seen t v
    newly : (v : String) → Seen t v → Seen s v ⊎ (elem v t.frontier ≡ true)

  offer-Grows :
      (s : Frontier) (n : String) → Grows (n ∷ []) s (offer get_related_services owner s n)
  unfolding offer
  offer-Grows s n = record {
    seen = λ v. ground (arith, elem-append v s.visited (n ∷ []), string_eq.beq_iff v n);
    waiting = λ v h. ground (arith, elem-append v s.frontier (n ∷ []));
    fresh =
        λ v h. ground (arith, elem-append v s.frontier (n ∷ []), elem-append v s.visited (n ∷ []));
    newly =
        λ v h. ground (arith, elem-append v s.frontier (n ∷ []), elem-append v s.visited (n ∷ []));
  }

  offer_all-Grows :
      (s : Frontier) (ns : List String) → Grows ns s (offer_all get_related_services owner s ns)
  unfolding offer_all
  offer_all-Grows s [] = record {
    seen = λ v. ground arith;
    waiting = λ v h. h;
    fresh = λ v h. inl h;
    newly = λ v h. inl h;
  }
  offer_all-Grows s (n ∷ ns) =
      let s' = offer get_related_services owner s n in
      let one = offer-Grows s n in
      let rest = offer_all-Grows s' ns in
      record {
        seen = λ v. ground (arith, one.seen v, rest.seen v);
        waiting = λ v h. rest.waiting v (one.waiting v h);
        fresh = λ v h. ground (arith, one.fresh v, rest.fresh v, rest.seen v);
        newly = λ v h. ground (arith, one.newly v, rest.newly v, rest.waiting v);
      }

  Inv-step :
      (s : Frontier) (u : String) (rest : List String)
      → s.frontier ≡ u ∷ rest
      → Inv s
      → Inv (
          offer_all get_related_services owner
            (record s { frontier = rest })
            (rel get_related_services owner u))
  Inv-step s u rest e inv =
      let ns = rel get_related_services owner u in
      let s' = record s { frontier = rest } in
      let g = offer_all-Grows s' ns in
      let in_frontier : (v : String) → elem v s.frontier ≡ (v == u || elem v rest) =
        λ v. rw e refl in
      let to_u : Walk u = inv.sound u (inv.queued u (in_frontier u ∙ rw (==_refl u) refl)) in
      record {
        source = (g.seen first).1 (inl inv.source);
        queued = λ v h. ground (arith, g.fresh v, g.seen v, inv.queued v, in_frontier v);
        sound = λ v h. elim ((g.seen v).0 h) [
          | inl old ↦ inv.sound v old
          | inr new ↦ step to_u new.0 new.1
        ];
        closed = λ x v hx r o. ground (
          arith,
          g.newly x,
          g.seen v,
          g.waiting x,
          inv.closed x v,
          in_frontier x,
          string_eq.beq_iff x u,
        );
      }

  Inv-search : (fuel : ℕ) (s : Frontier) → Inv s → Inv (search get_related_services owner fuel s)
  unfolding search
  Inv-search zero s inv = inv
  Inv-search (suc fuel) s inv = elim (List-cases s.frontier) [
    | inl e ↦ rw (e, search) inv
    | inr (u, rest, e) ↦ rw (e, search) (Inv-search fuel _ (Inv-step s u rest e inv))
  ]

  Inv-start : Inv (start get_related_services owner first)
  unfolding start
  Inv-start = record {
    source = rw (==_refl first) refl;
    queued = λ v h. h;
    sound = λ v h. subst Walk (sym ((string_eq.beq_iff v first).0 (ground arith))) here;
    closed = λ u v h r o. inl h;
  }

  complete : (s : Frontier) → Inv s → s.frontier ≡ [] → (v : String) → Walk v → Seen s v
  complete s inv e v here = inv.source
  complete s inv e v (step {u} p r o) = elim (inv.closed u v (complete s inv e u p) r o) [
    | inl waiting ↦ cc (rw e at waiting)
    | inr m ↦ m
  ]

  -- The search visits exactly the services that a walk over owned services leads to from the first.
  pub component-Reach :
      (v : String) → (elem v (component get_related_services owner first).visited ≡ true) ↔ Walk v
  unfolding component
  component-Reach v =
      let s = start get_related_services owner first in
      let inv = Inv-search (suc (length (keys owner))) s Inv-start in
      (inv.sound v, complete _ inv (component-ends get_related_services owner first) v)
