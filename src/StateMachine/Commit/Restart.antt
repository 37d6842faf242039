-- ===== src/StateMachine/Commit/Restart.antt =====
-- src/StateMachine.cc: what the state machine has applied, over a run of commits and a restart.
use quarkdb.Base.{
  ℕ, zero, suc, ◌+◌, ◌^◌, ◌<◌, ◌≡◌, refl, ◌∙◌, sym, ap, Bool, true, false, not, ◌&&◌, some, List,
  [], ◌∷◌, length, arith, ◌==◌, ==_iff, Result, Fault, ok, thrown, ◌>>=◌, ◌>>◌, throw_if, >>=-eq-ok,
  inl, inr, Bool-cases, ltb, bytes_eq_iff, illegal_last_applied, assertion_violation,
  readonly_staging_area,
}
use mathlib.Core.Path.{subst}
use quarkdb.Storage.BinaryInt.{int_to_binary_string, binary_string_to_int-int_to_binary_string}
use quarkdb.StateMachine.Database.{Rocks}
use quarkdb.StateMachine.StagingArea.{StagingArea, new_area}
use quarkdb.StateMachine.Commit.{
  StateMachine, last_applied_key, commit, commit_area, commit_transaction, chain,
  retrieve_last_applied, commit_batch,
}

ok-inj : {A : Type 0} {x y : A} → ◌≡◌ {A = Result A} (ok x) (ok y) → x ≡ y
ok-inj z = cc

nonzero : (n : ℕ) → suc n == 0 ≡ false
nonzero n = ground arith

module _ {Db : Type 0} (Batch : Type 0) ⦃rocks : Rocks Db Batch⦄ where
  -- A restart finds what has been applied.
  pub record IsPersisted (sm : StateMachine Db) : Type 0 where
    pub stored : rocks.db_get sm.db last_applied_key ≡ some (int_to_binary_string sm.last_applied)
    pub transactions : sm.in_bulk_load ≡ false

module _ {Db Batch : Type 0} ⦃rocks : Rocks Db Batch⦄ where
  -- Commands with their indices, each over an area of its own.
  unfoldable pub chains :
      StateMachine Db
      → List (ℕ × (StagingArea Db Batch → Result (StagingArea Db Batch × Unit {0})))
      → Result (StateMachine Db)
  unfolding chain
  chains sm [] = ok sm
  chains sm ((index, command) ∷ rest) = do
    (committed, reply) ← chain sm index command
    chains committed rest

  -- The indices go on from the last one.
  abbrev pub Consecutive :
      ℕ → List (ℕ × (StagingArea Db Batch → Result (StagingArea Db Batch × Unit {0}))) → Type 0
  Consecutive last [] = Unit {0}
  Consecutive last ((index, command) ∷ rest) = (index ≡ last + 1) × Consecutive index rest

  commit_transaction-next :
      (sm after : StateMachine Db) (wb : Batch) (i : ℕ)
      → IsPersisted Batch sm
      → commit_transaction sm wb (suc i) ≡ ok after
      → (suc i ≡ sm.last_applied + 1) × (after.last_applied ≡ suc i) × IsPersisted Batch after
  unfolding commit_transaction
  commit_transaction-next sm after wb i p e = elim (Bool-cases (suc i == sm.last_applied + 1)) [
    | inr other ↦ absurd (unlike (sym (ap (committed sm wb i) other) ∙ checked))
    | inl next ↦
        let same = ok-inj (sym (ap (committed sm wb i) next) ∙ checked) in
        (
          (==_iff (suc i) (sm.last_applied + 1)).0 next,
          sym (ap (λ m. m.last_applied) same),
          subst (IsPersisted Batch) same (record {
            stored =
                rocks.get-write sm.db (batch i wb) last_applied_key
                ∙ rocks.through-put wb sm.db last_applied_key (int_to_binary_string (suc i))
                    last_applied_key
                ∙ rw ((bytes_eq_iff last_applied_key last_applied_key).1 refl) refl;
            transactions = p.transactions;
          }),
        )
  ]
    where
      batch : ℕ → Batch → Batch
      batch i wb = rocks.batch_put wb last_applied_key (int_to_binary_string (suc i))

      committed : StateMachine Db → Batch → ℕ → Bool → Result (StateMachine Db)
      committed sm wb i b =
          (throw_if (not b) illegal_last_applied
            >> ok (rocks.batch_put wb last_applied_key (int_to_binary_string (suc i))))
          >>= λ batch. ok (record sm { db = rocks.db_write sm.db batch; last_applied = suc i })

      checked : committed sm wb i (suc i == sm.last_applied + 1) ≡ ok after
      checked =
          sym (
            ap
              (λ b.
                throw_if (b && ltb 0 sm.last_applied) illegal_last_applied
                >> committed sm wb i (suc i == sm.last_applied + 1))
              (nonzero i))
          ∙ e

      unlike :
          {f : Fault} {x : StateMachine Db}
          → ◌≡◌ {A = Result (StateMachine Db)} (thrown f) (ok x)
          → ⊥
      unlike z = cc

  chain-next :
      (sm : StateMachine Db) (i : ℕ)
      (command : StagingArea Db Batch → Result (StagingArea Db Batch × Unit {0}))
      (reply : StateMachine Db × Unit {0})
      → IsPersisted Batch sm
      → chain sm (suc i) command ≡ ok reply
      → (suc i ≡ sm.last_applied + 1) × (reply.0.last_applied ≡ suc i) × IsPersisted Batch reply.0
  unfolding chain commit
  chain-next sm i command reply p e =
      let ((s, r), ran, e1) = >>=-eq-ok (command (new_area sm.db sm.in_bulk_load false)) _ e in
      let (after, committed, last) = >>=-eq-ok (commit sm s (suc i)) (λ m. ok (m, r)) e1 in
      let (checked, writable, area) =
        >>=-eq-ok (throw_if s.read_only readonly_staging_area) _ committed in
      let (a, b, c) = in_area s after s.bulk_load area in
      let same = ap (state_of after) last in
      (a, ap (λ m. m.last_applied) (sym same) ∙ b, subst (IsPersisted Batch) same c)
    where
      state_of : StateMachine Db → Result (StateMachine Db × Unit {0}) → StateMachine Db
      state_of default (thrown fault) = default
      state_of default (ok m) = m.0

      unlike :
          {f : Fault} {x : StateMachine Db}
          → ◌≡◌ {A = Result (StateMachine Db)} (thrown f) (ok x)
          → ⊥
      unlike z = cc

      in_area :
          (s : StagingArea Db Batch) (after : StateMachine Db) (b : Bool)
          → commit_area sm s (suc i) b ≡ ok after
          → (suc i ≡ sm.last_applied + 1) × (after.last_applied ≡ suc i) × IsPersisted Batch after
      in_area s after false q = commit_transaction-next sm after s.write_batch_with_index i p q
      in_area s after true q = absurd (
          unlike (
            sym (
              ap (λ b. throw_if (not b) assertion_violation >> ok (commit_batch sm s.write_batch))
                (nonzero i))
            ∙ q))

  reads :
      (m : StateMachine Db)
      → IsPersisted Batch m
      → m.last_applied < 2 ^ 64
      → retrieve_last_applied Batch m.db ≡ (m.db, m.last_applied)
  unfolding retrieve_last_applied
  reads m q fits = rw (q.stored, binary_string_to_int-int_to_binary_string m.last_applied fits) refl

  abbrev pub AreIndexed :
      List (ℕ × (StagingArea Db Batch → Result (StagingArea Db Batch × Unit {0}))) → Type 0
  AreIndexed [] = Unit {0}
  AreIndexed ((index, command) ∷ rest) = (0 < index) × AreIndexed rest

  -- If a run of commands with indices above 0, whatever they write, has been committed, then each index was
  -- one more than the last, the state machine has applied as many more, and a restart finds the same.
  pub applied_in_order :
      (cs : List (ℕ × (StagingArea Db Batch → Result (StagingArea Db Batch × Unit {0}))))
      (sm after : StateMachine Db)
      → IsPersisted Batch sm
      → AreIndexed cs
      → sm.last_applied + length cs < 2 ^ 64
      → chains sm cs ≡ ok after
      → Consecutive sm.last_applied cs
        × (after.last_applied ≡ sm.last_applied + length cs)
        × (retrieve_last_applied Batch after.db ≡ (after.db, after.last_applied))
  unfolding chains
  applied_in_order [] sm after p indexed small e =
      let same = ok-inj e in
      (
        tt,
        ap (λ m. m.last_applied) (sym same) ∙ omega arith,
        subst (λ m. retrieve_last_applied Batch m.db ≡ (m.db, m.last_applied)) same
            (reads sm p (omega arith)),
      )
  applied_in_order ((zero, command) ∷ rest) sm after p indexed small e = elim indexed.0 [ ]
  applied_in_order ((suc i, command) ∷ rest) sm after p indexed small e =
      let ((m, r), ran, more) = >>=-eq-ok (chain sm (suc i) command) (λ x. chains x.0 rest) e in
      let (a, b, c) = chain-next sm i command (m, r) p ran in
      let (d, f, g) = applied_in_order rest m after c indexed.1 (omega (arith, a, b, small)) more in
      ((a, subst (λ k. Consecutive k rest) b d), omega (arith, a, b, f), g)
