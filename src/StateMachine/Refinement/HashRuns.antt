-- ===== src/StateMachine/Refinement/HashRuns.antt =====
-- src/StateMachine.cc: any sequence of commands on a hash, against the map of the hash.
use quarkdb.Base.{
  ℕ, ◌+◌, ◌-◌, ◌^◌, ◌<◌, ◌≤◌, ◌≡◌, refl, ap, Bool, not, Option, List, [], ◌∷◌, Bytes, length, arith,
  Result, ok, ◌>>=◌, >>=-ok,
}
use quarkdb.Storage.KeyType.{hash}
use quarkdb.StateMachine.Database.{Rocks}
use quarkdb.StateMachine.StagingArea.{StagingArea}
use quarkdb.StateMachine.Status.{Status, success, lookup_status}
use quarkdb.StateMachine.Hashes.{hset, hsetnx, hmset, hget, hlen}
use quarkdb.StateMachine.Removal.{hdel}
use quarkdb.StateMachine.FieldMap.{
  FieldMap, find, has, insert, insert_all, erase_all, add, length-insert, length-add,
  length-erase_all,
}
use quarkdb.StateMachine.Refinement.{Represents, Becomes, Becomes-refl, Becomes-trans}
use quarkdb.StateMachine.Refinement.Hashes.{
  hset_refines, hsetnx_refines, hmset_refines, IsPaired, insert_pairs-bound,
}
use quarkdb.StateMachine.Refinement.Removals.{hdel_refines}
use quarkdb.StateMachine.Refinement.Reads.{hash_reads_refine}

pub data Command : Type 0 where
  set_field set_new_field : Bytes → Bytes → Command
  set_fields delete_fields : List Bytes → Command
  get_field : Bytes → Command
  count_fields : Command

pub data Reply : Type 0 where
  created : Status → Bool → Reply
  done : Status → Reply
  counted : Status → ℕ → Reply
  value : Status → Option Bytes → Reply

module _ {Db Batch : Type 0} ⦃rocks : Rocks Db Batch⦄ where
  abbrev pub execute :
      Bytes → StagingArea Db Batch → Command → Result (StagingArea Db Batch × Reply)
  execute key s (set_field f v) = do (t, status, new) ← hset s key f v; ok (t, created status new)
  execute key s (set_new_field f v) = do
    (t, status, new) ← hsetnx s key f v
    ok (t, created status new)
  execute key s (set_fields request) = do
    (t, status, nothing) ← hmset s key request
    ok (t, done status)
  execute key s (delete_fields fs) = do
    (t, status, removed) ← hdel s key fs
    ok (t, counted status removed)
  execute key s (get_field f) = do (status, found) ← hget s key f; ok (s, value status found)
  execute key s count_fields = do (status, len) ← hlen s key; ok (s, counted status len)

  unfoldable pub run :
      Bytes → StagingArea Db Batch → List Command → Result (StagingArea Db Batch × List Reply)
  run key s [] = ok (s, [])
  run key s (c ∷ rest) = do
    (t, reply) ← execute key s c
    (w, replies) ← run key t rest
    ok (w, reply ∷ replies)

-- The same commands on a map.
abbrev pub after : FieldMap → Command → FieldMap
after m (set_field f v) = insert m f v
after m (set_new_field f v) = add m f v
after m (set_fields request) = insert_all m request
after m (delete_fields fs) = erase_all m fs
after m (get_field f) = m
after m count_fields = m

abbrev pub reply_of : FieldMap → Command → Reply
reply_of m (set_field f v) = created success (not (has m f))
reply_of m (set_new_field f v) = created success (not (has m f))
reply_of m (set_fields request) = done success
reply_of m (delete_fields fs) = counted success (length m - length (erase_all m fs))
reply_of m (get_field f) = value (lookup_status (find m f)) (find m f)
reply_of m count_fields = counted success (length m)

abbrev pub replay : FieldMap → List Command → FieldMap
replay m [] = m
replay m (c ∷ rest) = replay (after m c) rest

abbrev pub replies_of : FieldMap → List Command → List Reply
replies_of m [] = []
replies_of m (c ∷ rest) = reply_of m c ∷ replies_of (after m c) rest

-- How many fields a command can add, and the requests that are well formed.
abbrev pub growth : Command → ℕ
growth (set_field f v) = 1
growth (set_new_field f v) = 1
growth (set_fields request) = length request
growth (delete_fields fs) = 0
growth (get_field f) = 0
growth count_fields = 0

abbrev pub growths : List Command → ℕ
growths [] = 0
growths (c ∷ rest) = growth c + growths rest

abbrev pub IsCommand : Command → Type 0
IsCommand (set_fields request) = IsPaired request
IsCommand _ = Unit {0}

abbrev pub AreCommands : List Command → Type 0
AreCommands [] = Unit {0}
AreCommands (c ∷ rest) = IsCommand c × AreCommands rest

module _ {Db Batch : Type 0} ⦃rocks : Rocks Db Batch⦄ where
  execute_refines :
      (key : Bytes) (s : StagingArea Db Batch) (m : FieldMap) (c : Command)
      → Represents hash s key m
      → IsCommand c
      → length m + growth c < 2 ^ 63
      → (w : StagingArea Db Batch) × (execute key s c ≡ ok (w, reply_of m c))
        × Becomes hash key s (after m c) w
        × (length (after m c) ≤ length m + growth c)
  execute_refines key s m (set_field f v) r p small =
      let (w, ran, b) = hset_refines s key f v m r small in
      (w, >>=-ok _ ran refl, b, omega (arith, length-insert m f v))
  execute_refines key s m (set_new_field f v) r p small =
      let (w, ran, b) = hsetnx_refines s key f v m r small in
      (w, >>=-ok _ ran refl, b, ground (arith, length-add m f v))
  execute_refines key s m (set_fields request) r p small =
      let (w, ran, b) = hmset_refines s key request m r p small in
      (w, >>=-ok _ ran refl, b, insert_pairs-bound m request)
  execute_refines key s m (delete_fields fs) r p small =
      let (w, removed, ran, size, b) = hdel_refines s key fs m r (omega arith) in
      let counts : removed ≡ length m - length (erase_all m fs) = omega (arith, size) in
      (
        w,
        >>=-ok _ ran (ap (λ n. ok (w, counted success n)) counts),
        b,
        omega (arith, length-erase_all m fs r.holds.distinct),
      )
  execute_refines key s m (get_field f) r p small =
      (s, >>=-ok _ (hash_reads_refine s key f m r).0 refl, Becomes-refl r, omega arith)
  execute_refines key s m count_fields r p small =
      (s, >>=-ok _ (hash_reads_refine s key [] m r).1 refl, Becomes-refl r, omega arith)

  -- A run, with what it does to the other keys of the database.
  pub run_becomes :
      (key : Bytes) (cs : List Command) (s : StagingArea Db Batch) (m : FieldMap)
      → Represents hash s key m
      → AreCommands cs
      → length m + growths cs < 2 ^ 63
      → (w : StagingArea Db Batch) × (run key s cs ≡ ok (w, replies_of m cs))
        × Becomes hash key s (replay m cs) w
  unfolding run
  run_becomes key [] s m r p small = (s, refl, Becomes-refl r)
  run_becomes key (c ∷ rest) s m r (p, q) small =
      let (t, ran, first, bound) = execute_refines key s m c r p (omega arith) in
      let (w, more, last) =
        run_becomes key rest t (after m c) first.represents q (omega (arith, bound, small)) in
      (w, >>=-ok _ ran (>>=-ok _ more refl), Becomes-trans first last)

  -- On an area that represents a map, any sequence of well-formed commands on the hash gives the replies
  -- that the map gives, and leaves the area at what the map becomes, if the sizes fit.
  pub hash_run_refines :
      (key : Bytes) (cs : List Command) (s : StagingArea Db Batch) (m : FieldMap)
      → Represents hash s key m
      → AreCommands cs
      → length m + growths cs < 2 ^ 63
      → (w : StagingArea Db Batch) × (run key s cs ≡ ok (w, replies_of m cs))
        × Represents hash w key (replay m cs)
  hash_run_refines key cs s m r p small =
      let (w, ran, b) = run_becomes key cs s m r p small in (w, ran, b.represents)
