-- ===== src/Flink/Sink/Retry.antt =====
-- What a write of the sink has done when it returns, and what it leaves when it raises.
use distrosense.Base.{
  sym, suc, zero, ap, not, ◌&&◌, if◌then◌else◌, ℕ, ◌∙◌, arith, inl, inr, Bool-cases, ◌⊎◌, true,
  false, Bool, refl, ◌≡◌,
}
use distrosense.Flink.Sink.{
  Database, Sink, Call, lift, otherwise, continue, seq, catch, fail, ensure_conn, reset, roll_back,
  recover, body, run,
}

if_true : {A : Type 0} (b : Bool) (x y : A) → b ≡ true → (if b then x else y) ≡ x
if_true true x y h = refl
if_true false x y h = cc

module _ (db : Database) where
  -- The operation and then the commit were called on an open connection, and both returned.
  pub record Committed (operation : Call db) (t : Sink db) : Type 0 where
    pub before : Sink db
    pub between : Sink db
    pub performed : operation before ≡ (between, true)
    pub committed : lift db db.commit between ≡ (t, true)

  -- No transaction is left open: there is no connection, or it is closed, or the last call rolled it
  -- back.
  abbrev pub IsClean : Sink db → Type 0
  IsClean t =
      (t.has_conn ≡ false)
      ⊎ ((db.is_closed t.world ≡ true) ⊎ ((s : Sink db) × (lift db db.rollback s ≡ (t, true))))

  continue-returns :
      (b : Call db) (r : Sink db × Bool) (t : Sink db)
      → continue db b r ≡ (t, true)
      → (u : Sink db) × (r ≡ (u, true)) × (b u ≡ (t, true))
  continue-returns b (s, true) t h = (s, refl, h)
  continue-returns b (s, false) t h = cc

  continue-raises :
      (b : Call db) (r : Sink db × Bool) (t : Sink db)
      → continue db b r ≡ (t, false)
      → (r ≡ (t, false)) ⊎ ((u : Sink db) × (r ≡ (u, true)) × (b u ≡ (t, false)))
  continue-raises b (s, true) t h = inr (s, refl, h)
  continue-raises b (s, false) t h = inl h

  otherwise-returns :
      (b : Call db) (r : Sink db × Bool) (t : Sink db)
      → otherwise db b r ≡ (t, true)
      → (r ≡ (t, true)) ⊎ ((u : Sink db) × (r ≡ (u, false)) × (b u ≡ (t, true)))
  otherwise-returns b (s, true) t h = inl h
  otherwise-returns b (s, false) t h = inr (s, refl, h)

  otherwise-raises :
      (b : Call db) (r : Sink db × Bool) (t : Sink db)
      → otherwise db b r ≡ (t, false)
      → (u : Sink db) × (r ≡ (u, false)) × (b u ≡ (t, false))
  otherwise-raises b (s, true) t h = cc
  otherwise-raises b (s, false) t h = (s, refl, h)

  module _ (a b : Call db) (s t : Sink db) where
    seq-returns : seq db a b s ≡ (t, true) → (u : Sink db) × (a s ≡ (u, true)) × (b u ≡ (t, true))
    unfolding seq
    seq-returns h = continue-returns b (a s) t h

    seq-raises :
        seq db a b s ≡ (t, false)
        → (a s ≡ (t, false)) ⊎ ((u : Sink db) × (a s ≡ (u, true)) × (b u ≡ (t, false)))
    unfolding seq
    seq-raises h = continue-raises b (a s) t h

    catch-returns :
        catch db a b s ≡ (t, true)
        → (a s ≡ (t, true)) ⊎ ((u : Sink db) × (a s ≡ (u, false)) × (b u ≡ (t, true)))
    unfolding catch
    catch-returns h = otherwise-returns b (a s) t h

    catch-raises :
        catch db a b s ≡ (t, false) → (u : Sink db) × (a s ≡ (u, false)) × (b u ≡ (t, false))
    unfolding catch
    catch-raises h = otherwise-raises b (a s) t h

  -- the handlers of the last attempt and of the others
  abbrev give_up : Call db
  give_up = seq db (recover db) (fail db)

  abbrev try_again : Call db → Call db
  try_again again = seq db (recover db) (seq db (reset db) again)

  body-Committed :
      (operation : Call db) (s t : Sink db)
      → body db operation s ≡ (t, true)
      → Committed operation t
  unfolding body
  body-Committed operation s t h =
      let finish = seq db operation (lift db db.commit) in
      let (u, _, rest) = seq-returns (ensure_conn db) finish s t h in
      let (v, performed, committed) = seq-returns operation (lift db db.commit) u t rest in
      record { before = u; between = v; performed = performed; committed = committed }

  -- A write that returns has performed its operation on the database and committed it right
  -- afterwards, and the sink is as the commit left it.
  pub run-Committed :
      (left : ℕ) (operation : Call db) (s t : Sink db)
      → run db left operation s ≡ (t, true)
      → Committed operation t
  unfolding run
  run-Committed zero operation s t h = elim (catch-returns (body db operation) give_up s t h) [
    | inl done ↦ body-Committed operation s t done
    | inr (u, _, handled) ↦
        let (v, _, failed) = seq-returns (recover db) (fail db) u t handled in cc
  ]
  run-Committed (suc left) operation s t h =
      let again = run db left operation in
      elim (catch-returns (body db operation) (try_again again) s t h) [
        | inl done ↦ body-Committed operation s t done
        | inr (u, _, handled) ↦
            let (v, _, rest) = seq-returns (recover db) (seq db (reset db) again) u t handled in
            let (w, _, last) = seq-returns (reset db) again v t rest in
            run-Committed left operation w t last
      ]

  reset_returns :
      (s t : Sink db) (b : Bool) → reset db s ≡ (t, b) → (b ≡ true) × (t.has_conn ≡ false)
  unfolding reset
  reset_returns s t b h = (ground arith, ground arith)

  recover_returns : (s t : Sink db) → recover db s ≡ (t, false) → ⊥
  unfolding recover
  recover_returns s t h =
      let (u, _, handled) = catch-raises (roll_back db) (reset db) s t h in
      let (bad, _) = reset_returns u t false handled in cc

  recover-IsClean : (s t : Sink db) → recover db s ≡ (t, true) → IsClean t
  unfolding recover
  recover-IsClean s t h = elim (catch-returns (roll_back db) (reset db) s t h) [
    | inr (u, _, handled) ↦ inl (reset_returns u t true handled).1
    | inl kept ↦ elim (Bool-cases s.has_conn) [
      | inr none ↦ inl (ground arith)
      | inl some ↦ elim (Bool-cases (db.is_closed s.world)) [
        | inl closed ↦ inr (inl (ground arith))
        | inr live ↦
            let same =
              if_true (s.has_conn && not (db.is_closed s.world)) _ (s, true) (ground arith) in
            inr (inr (s, sym same ∙ kept))
      ]
    ]
  ]

  -- A write that raises leaves no transaction open, so that it cannot spoil a later write.
  pub run-IsClean :
      (left : ℕ) (operation : Call db) (s t : Sink db)
      → run db left operation s ≡ (t, false)
      → IsClean t
  unfolding run
  run-IsClean zero operation s t h =
      let (u, _, handled) = catch-raises (body db operation) give_up s t h in
      elim (seq-raises (recover db) (fail db) u t handled) [
        | inl bad ↦ absurd (recover_returns u t bad)
        | inr (v, recovered, failed) ↦
            recover-IsClean u t (recovered ∙ ap (λ p. (p.0, true)) failed)
      ]
  run-IsClean (suc left) operation s t h =
      let again = run db left operation in
      let (u, _, handled) = catch-raises (body db operation) (try_again again) s t h in
      elim (seq-raises (recover db) (seq db (reset db) again) u t handled) [
        | inl bad ↦ absurd (recover_returns u t bad)
        | inr (v, _, rest) ↦ elim (seq-raises (reset db) again v t rest) [
          | inl bad ↦ let (never, _) = reset_returns v t false bad in cc
          | inr (w, _, last) ↦ run-IsClean left operation w t last
        ]
      ]
