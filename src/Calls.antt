-- ===== src/Calls.antt =====
-- Calls of the outside, each journalled: what the boundary protocols of
-- dploydb/deployment_dependencies.py and the helpers of other modules give the coordinators.
use dploy_db.Base.{ℕ, String, Bool, true, false, Option, none, some}
use dploy_db.Command.{CommandResult, TrafficAction, TrafficHookResult}
use dploy_db.Models.Manifest.{ProductionApplicationHandle}
use dploy_db.Raised.{Raised, Outcome, returned, raised}
use dploy_db.World.{
  Environment, BackupPurpose, BackupArtifact, ProductionInspection, ProductionStop,
  RestoredDatabase, RemoteBackup, Action, create_backup, verify_backup, replicate, inspect,
  discover, stop, start, restore, Call, silent, ran, hook,
}
use dploy_db.Exec.{Exec, ask}

abbrev pub ran_entry : {A : Type 0} → Action → Outcome A → Call
ran_entry a (returned _) = ran a true
ran_entry a (raised _) = ran a false

abbrev pub hook_entry : TrafficAction → Outcome TrafficHookResult → Call
hook_entry a (returned r) = hook a (some r)
hook_entry a (raised _) = hook a none

abbrev hook_result : TrafficAction → Outcome CommandResult → Outcome TrafficHookResult
hook_result a (returned c) = returned (record { action = a; command = c })
hook_result a (raised e) = raised e

abbrev inject_outcome : Option Raised → Outcome (Unit {0})
inject_outcome none = returned tt
inject_outcome (some e) = raised e

module _ (env : Environment) where
  -- A call whose result nothing reads.
  unfoldable pub run : Action → Exec (Unit {0})
  run a = ask (λ j. env.call j a) (ran_entry a)

  -- A bounded command.
  unfoldable pub run_command : Action → Exec CommandResult
  run_command a = ask (λ j. env.run_command j a) (ran_entry a)

  -- One traffic hook: `CommandTrafficController._run`.
  unfoldable pub run_hook : TrafficAction → Exec TrafficHookResult
  run_hook a = ask (λ j. hook_result a (env.run_hook j a)) (hook_entry a)

  -- `fault_injector(stage)`
  unfoldable pub inject : String → Exec (Unit {0})
  inject stage = ask (λ j. inject_outcome (env.inject j stage)) (λ _. silent)

  unfoldable pub make_backup : BackupPurpose → ℕ → Exec BackupArtifact
  make_backup p operation = ask (λ j. env.create_backup j p operation) (ran_entry create_backup)

  unfoldable pub check_backup : ℕ → Exec BackupArtifact
  check_backup id = ask (λ j. env.verify_backup j id) (ran_entry verify_backup)

  unfoldable pub replicate_backup : BackupArtifact → ℕ → Exec RemoteBackup
  replicate_backup b release = ask (λ j. env.replicate j b release) (ran_entry replicate)

  unfoldable pub inspect_application :
      ProductionApplicationHandle → Bool → Exec ProductionInspection
  inspect_application h running = ask (λ j. env.inspect j h running) (ran_entry inspect)

  unfoldable pub discover_current : Exec ProductionInspection
  discover_current = ask (λ j. env.discover j) (ran_entry discover)

  unfoldable pub stop_current : ProductionApplicationHandle → Exec ProductionStop
  stop_current h = ask (λ j. env.stop j h) (ran_entry stop)

  unfoldable pub start_new : Exec ProductionApplicationHandle
  start_new = ask (λ j. env.start j) (ran_entry start)

  unfoldable pub restore_database : BackupArtifact → Exec RestoredDatabase
  restore_database b = ask (λ j. env.restore j b) (ran_entry restore)
