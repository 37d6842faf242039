-- ===== src/StateMachine/Refinement.antt =====
-- src/StateMachine.cc: hashes and sets as maps. An area represents a map at a key if the fields are those
-- of the map and the descriptor has its size; a command takes it to another map, and changes nothing else.
use quarkdb.Base.{
  ℕ, ◌^◌, ◌<◌, ◌≡◌, refl, ◌∙◌, ap, sym, Bool, true, false, not, Option, none, some, Bytes, bytes_eq,
  length, arith, Result, ok, inl, inr,
}
use mathlib.Core.Path.{subst}
use quarkdb.Storage.KeyType.{KeyType}
use quarkdb.Storage.KeyDescriptor.{KeyDescriptor}
use quarkdb.Storage.Locators.{descriptor_locator}
use quarkdb.StateMachine.Database.{Rocks}
use quarkdb.StateMachine.StagingArea.{StagingArea, get}
use quarkdb.StateMachine.WriteOperation.{WriteOperation, takes_field}
use quarkdb.StateMachine.Status.{return_finalize}
use quarkdb.StateMachine.FieldMap.{FieldMap}
use quarkdb.StateMachine.Fields.{IsTransaction, field_key, descriptor-field, field-descriptor}
use quarkdb.StateMachine.Fields.Calls.{
  open_operation, Holds, IsElsewhere, Keeps, Leaves, takes_field-has_fields,
}
use quarkdb.StateMachine.Fields.Descriptors.{
  sized, counted, positive, IsSized, Describes, Ends, return_finalize-sized,
}
pub mod Hashes
pub mod Removals
pub mod Sets
pub mod Reads
pub mod Increments
pub mod HashRuns
pub mod OtherKeys
pub mod Moves
pub mod WrongTypes
pub mod LocalKeys
pub mod LocalFields
pub mod LocalWrites
pub mod LocalHashes
pub mod LocalReads
pub mod DequeItems
pub mod DequeLoops
pub mod Deques
pub mod DequePushes
pub mod DequePops
pub mod DequeRuns
pub mod DequeSteps

module _ {Db Batch : Type 0} ⦃rocks : Rocks Db Batch⦄ where
  pub record Represents (t : KeyType) (s : StagingArea Db Batch) (key : Bytes) (m : FieldMap)
      : Type 0 where
    pub holds : Holds t s key m
    pub described : Describes s key (counted t (length m))

  -- A command's effect: the key has the fields of a map, and no other database key has changed.
  pub record Becomes (t : KeyType) (key : Bytes) (s : StagingArea Db Batch) (m : FieldMap)
      (w : StagingArea Db Batch) : Type 0 where
    pub represents : Represents t w key m
    pub only :
        (j : Bytes)
        → IsElsewhere t key j
        → bytes_eq (descriptor_locator key) j ≡ false
        → get w j ≡ get s j

  pub Becomes-refl :
      {t : KeyType} {key : Bytes} {s : StagingArea Db Batch} {m : FieldMap}
      → Represents t s key m
      → Becomes t key s m s
  Becomes-refl r = record { represents = r; only = λ j f d. refl }

  pub Becomes-trans :
      {t : KeyType} {key : Bytes} {s u w : StagingArea Db Batch} {m m' : FieldMap}
      → Becomes t key s m u
      → Becomes t key u m' w
      → Becomes t key s m' w
  Becomes-trans a b = record {
    represents = b.represents;
    only = λ j f d. b.only j f d ∙ a.only j f d;
  }

  pub Describes-same :
      (s u : StagingArea Db Batch) (key : Bytes) (o : Option KeyDescriptor)
      → get u (descriptor_locator key) ≡ get s (descriptor_locator key)
      → Describes s key o
      → Describes u key o
  Describes-same s u key none e d = e ∙ d
  Describes-same s u key (some info) e (str, d, p) = (str, e ∙ d, p)

  module _ (t : KeyType) (takes : takes_field t ≡ true) (is_sized : IsSized t) where
    -- The end of an operation leaves the fields.
    pub Ends-Holds :
        {u w : StagingArea Db Batch} {key : Bytes} {m : FieldMap} {o : Option KeyDescriptor}
        → Holds t u key m
        → Ends u key o w
        → Holds t w key m
    Ends-Holds {key = key} h e = record {
      transaction = e.transaction;
      distinct = h.distinct;
      reads = λ f.
          e.others (field_key t key f)
            (descriptor-field t key key f (takes_field-has_fields t takes))
          ∙ h.reads f;
    }

    ended :
        {s u : StagingArea Db Batch} {key : Bytes} {m after : FieldMap}
        → Represents t s key m
        → Leaves t key s after u
        → length m < 2 ^ 63
        → length after < 2 ^ 63
        → (w : StagingArea Db Batch) × (return_finalize u
              (open_operation key (sized t (length m)) (positive (length m)))
              (length after)
              false
            ≡ ok w)
          × Becomes t key s after w
    ended {s} {u} {key} {m} {after} r l old new =
        let out : IsElsewhere t key (descriptor_locator key) = λ f. elsewhere key f in
        let same = l.keeps.elsewhere (descriptor_locator key) out in
        let before = Describes-same s u key (counted t (length m)) same r.described in
        let (w, run, e) =
          return_finalize-sized u key l.holds.transaction t is_sized (length m) (length after) old
            new before in
        (
          w,
          run,
          record {
            represents = record { holds = Ends-Holds l.holds e; described = e.described };
            only = λ j off apart. e.others j apart ∙ l.keeps.elsewhere j off;
          },
        )
      where
        elsewhere : (k f : Bytes) → bytes_eq (field_key t key f) (descriptor_locator k) ≡ false
        elsewhere k f = field-descriptor t k key f (takes_field-has_fields t takes)

    -- The end of a command that has changed the fields, with the size that it has counted.
    pub finish :
        {s u : StagingArea Db Batch} {key : Bytes} {m after : FieldMap} (size : ℕ)
        → Represents t s key m
        → Leaves t key s after u
        → length m < 2 ^ 63
        → length after < 2 ^ 63
        → size ≡ length after
        → (w : StagingArea Db Batch) × (return_finalize u
              (open_operation key (sized t (length m)) (positive (length m)))
              size
              false
            ≡ ok w)
          × Becomes t key s after w
    finish {u = u} {key = key} {m = m} size r l old new counted_right =
        let (w, run, b) = ended r l old new in
        (
          w,
          ap
                (λ n.
                  return_finalize u (open_operation key (sized t (length m)) (positive (length m)))
                    n false)
                counted_right
              ∙ run,
          b,
        )
