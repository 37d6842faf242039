-- ===== src/StateMachine/Strings.antt =====
-- src/StateMachine.cc: strings, configuration and the commands on keys of any type.
use quarkdb.Base.{
  ℕ, not, false, Option, none, Bytes, List, [], ◌∷◌, length, if◌then◌else◌, Result, ok, ◌>>=◌,
}
use quarkdb.Storage.KeyType.{string}
use quarkdb.Storage.Locators.{string_locator, configuration_locator}
use quarkdb.Storage.DescriptorAccess.{is_empty, key_type_as_string}
use quarkdb.StateMachine.Database.{Rocks}
use quarkdb.StateMachine.StagingArea
use quarkdb.StateMachine.StagingArea.{StagingArea, put}
use quarkdb.StateMachine.WriteOperation.{WriteOperation, write}
use quarkdb.StateMachine.Status.{
  Status, success, wrong_type, count_of, plus64, lookup_status, assert_key_type, get_key_descriptor,
  return_finalize, with_operation,
}

module _ {Db Batch : Type 0} ⦃rocks : Rocks Db Batch⦄ where
  abbrev pub set_with :
      StagingArea Db Batch
      → Bytes
      → WriteOperation
      → Result (StagingArea Db Batch × Status × Unit {0})
  set_with s value op = do
    t ← write s op value
    u ← return_finalize t op (length value) false
    ok (u, success, tt)

  unfoldable pub set :
      StagingArea Db Batch → Bytes → Bytes → Result (StagingArea Db Batch × Status × Unit {0})
  set s key value = with_operation s key string tt (set_with s value)

  abbrev pub look_up : StagingArea Db Batch → Bytes → Status × Option Bytes
  look_up s locator = (lookup_status (StagingArea.get s locator), StagingArea.get s locator)

  unfoldable pub get : StagingArea Db Batch → Bytes → Result (Status × Option Bytes)
  get s key = do
    typed ← assert_key_type s key string
    ok (if typed then look_up s (string_locator key) else (wrong_type, none))

  -- A key counts as often as the request names it.
  abbrev pub exists_loop : StagingArea Db Batch → ℕ → List Bytes → Result (Status × ℕ)
  exists_loop s count [] = ok (success, count)
  exists_loop s count (key ∷ rest) = do
    key_info ← get_key_descriptor s key
    exists_loop s (plus64 count (count_of (not (is_empty key_info)))) rest

  unfoldable pub exists : StagingArea Db Batch → List Bytes → Result (Status × ℕ)
  exists s request = exists_loop s 0 request

  unfoldable pub get_type : StagingArea Db Batch → Bytes → Result Bytes
  get_type s key = do key_info ← get_key_descriptor s key; key_type_as_string key_info.key_type

  unfoldable pub config_get : StagingArea Db Batch → Bytes → Status × Option Bytes
  config_get s key = look_up s (configuration_locator key)

  unfoldable pub config_set :
      StagingArea Db Batch → Bytes → Bytes → Result (StagingArea Db Batch × Status)
  config_set s key value = do t ← put s (configuration_locator key) value; ok (t, success)
