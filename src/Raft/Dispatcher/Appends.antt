-- ===== src/Raft/Dispatcher/Appends.antt =====
-- What appendEntries makes of the journal.
use quarkdb.Base.{
  ℕ, zero, suc, ◌+◌, ◌<◌, ◌≡◌, inl, inr, Bool, true, false, arith, ok, List, [], ◌∷◌, Result,
  >>=-eq-ok, get_elem?, length,
}
use quarkdb.Raft.Types.{RaftEntry}
use quarkdb.Raft.Store.{Rocks}
use quarkdb.Raft.Journal.{Journal, fetch}
use quarkdb.Raft.Journal.Log.{append}
use quarkdb.Raft.Journal.Frame.{Appended, append-cases}
use quarkdb.Raft.Journal.History.{Step, Steps, Steps-cons, here, next, appends}
use quarkdb.Raft.Dispatcher.{append_each}

module _ {Db : Type 0} ⦃R : Rocks Db⦄ where
  -- `k` is `j` with the entries added at its end.
  pub record Extended (j k : Journal Db) (entries : List RaftEntry) : Type 0 where
    pub log_size : k.log_size ≡ j.log_size + length entries
    pub log_start : k.log_start ≡ j.log_start
    pub commit_index : k.commit_index ≡ j.commit_index
    pub before : (i : ℕ) → i < j.log_size → fetch k i ≡ fetch j i
    pub added : (i : ℕ) → i < length entries → fetch k (j.log_size + i) ≡ get_elem? entries i

  pub append_each-Steps :
      (j : Journal Db) (index : ℕ) (es : List RaftEntry) {k : Journal Db} {b : Bool}
      → append_each j index es ≡ ok (k, b)
      → Steps j k
  unfolding append_each append
  append_each-Steps j index [] {k} h = let e : k ≡ j = ground arith in rw e here
  append_each-Steps j index (e ∷ es) {k} {b} h =
      let (p, hp, rest) = >>=-eq-ok (append j index e false) _ h in
      go p.0 p.1 (appends index e false hp) rest (λ r. append_each-Steps p.0 (index + 1) es r)
    where
      go :
          (q : Journal Db) (c : Bool)
          → Step j q
          → ◌≡◌ {A = Result (Journal Db × Bool)}
              (elim c [ true ↦ append_each q (index + 1) es | false ↦ ok (q, false) ])
              (ok (k, b))
          → (append_each q (index + 1) es ≡ ok (k, b) → Steps q k)
          → Steps j k
      go q true st r f = Steps-cons st (f r)
      go q false st r f = let e : k ≡ q = ground arith in rw e (next here st)

  added-cons :
      (j q k : Journal Db) (e : RaftEntry) (es : List RaftEntry)
      → Appended j q e
      → Extended q k es
      → (i : ℕ) → i < length (e ∷ es)
      → fetch k (j.log_size + i) ≡ get_elem? (e ∷ es) i
  added-cons j q k e es a x zero l =
      let here : j.log_size + 0 ≡ j.log_size = omega arith in
      rw here
        (ground (arith, x.before j.log_size (omega (arith, a.log_size)), a.entries j.log_size))
  added-cons j q k e es a x (suc i) l =
      let there : j.log_size + suc i ≡ q.log_size + i = omega (arith, a.log_size) in
      rw there (x.added i (omega arith))

  pub append_each-Extended :
      (j : Journal Db) (index : ℕ) (es : List RaftEntry) {k : Journal Db}
      → index ≡ j.log_size
      → append_each j index es ≡ ok (k, true)
      → Extended j k es
  unfolding append_each append
  append_each-Extended j index [] e h = record {
    log_size = ground arith;
    log_start = ground arith;
    commit_index = ground arith;
    before = λ i l. ground arith;
    added = λ i l. absurd (omega arith);
  }
  append_each-Extended j index (e ∷ es) {k} at_end h =
      let (p, hp, rest) = >>=-eq-ok (append j index e false) _ h in
      elim (append-cases j index e false hp) [
        | inl (no_room, _) ↦ ground (arith, no_room)
        | inr (room, _, a) ↦
            let x =
              append_each-Extended p.0 (index + 1) es {k = k} (omega (arith, a.log_size))
                (ground (arith, room)) in
            record {
              log_size = omega (arith, x.log_size, a.log_size);
              log_start = ground (arith, x.log_start, a.log_start);
              commit_index = ground (arith, x.commit_index, a.commit_index);
              before = λ i l. ground (arith, x.before i (omega (arith, a.log_size)), a.entries i);
              added = added-cons j p.0 k e es a x;
            }
      ]
