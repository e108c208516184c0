-- ===== src/Examples/Commanding.antt =====
-- The commands at concrete inputs.
use pgcov.Base.{
  ℕ, ltb, Bool, false, none, some, List, [], ◌∷◌, Bytes, codes, bytes_eq, ◌≡◌, ◌≢◌, ◌≤◌, ◌⊎◌, refl,
  ok,
}
use pgcov.Config.{ConfigError, FloatTests, validate, override}
use pgcov.Database.{PoolConfig, Session}
use pgcov.Instrument.Files.{SourceFile, InstrumentedSql}
use pgcov.Runner.{TestRun}
use pgcov.Runner.Pool.{Batch}
use pgcov.Commands.Run.{Ending, Executed, Run}
use pgcov.Commands.Run.Exit.{Zero, Run-Zero}
use pgcov.Commands.Run.Total.{Run-returns}
use pgcov.Commands.Main.Codes.{RunCommand_codes}
use pgcov.Runner.Workflow.{Server, WorkflowError}
use pgcov.Runner.Workflow.Runs.{new_executor, execute_for}
use pgcov.Commands.Main.Executed.{Executes, AllExecuted, RunCommand-AllExecuted}
use pgcov.Commands.Main.{new_config, search_path_of, RunCommand}
use pgcov.Commands.Run.Saved.{Saved, Run-Saved}
use pgcov.Examples.Machine.{
  World, disk_laws, machine, given, flags, the_config, the_test, the_source, the_prepared, the_run,
  Signalled, at_rest, opened_pool, connected, at_end, machine_prepares, machine_connects,
  machine_concludes, machine_saves, machine_runs,
}

abbrev float_tests : FloatTests ℕ
float_tests = record { is_below_0 = λ n. false; is_above_100 = λ n. ltb 100 n }

the_config_accepted : validate float_tests the_config ≡ none
unfolding validate override new_config bytes_eq
the_config_accepted = refl

Run-Zero_example : Zero machine the_config (search_path_of []) Signalled false at_rest at_end
Run-Zero_example = Run-Zero machine the_config (search_path_of []) Signalled machine_runs refl

Run-Saved_example : Saved machine the_config (search_path_of []) Signalled false at_rest at_end
Run-Saved_example =
    Run-Saved machine the_config (search_path_of []) Signalled disk_laws machine_saves machine_runs
      refl

signals :
    (b : Bool) (scripts : List (Bytes × Bytes)) (sources : List InstrumentedSql) (f : SourceFile)
    → (run : TestRun) × Signalled b scripts sources f run
signals b scripts sources f = (_, refl)

Run-returns_example :
    ((c : Bool) × (end : Ending) × (s' : Session (PoolConfig Unit) World) × Run machine the_config
        (search_path_of [])
        Signalled
        c
        at_rest
        end
        s')
    × ((c : Bool) (end : Ending) (s' : Session (PoolConfig Unit) World)
        → Run machine the_config (search_path_of []) Signalled c at_rest end s'
        → end ≢ Ending.panicked)
Run-returns_example = Run-returns machine the_config (search_path_of []) Signalled signals at_rest

command_passes : RunCommand machine float_tests 0 Signalled given flags [] at_rest 0 at_end
command_passes = RunCommand.exited 0 at_end the_config_accepted machine_runs

RunCommand_codes_example :
    ((e : ConfigError) × (validate float_tests the_config ≡ some e)
      × (◌≡◌ {A = ℕ} 0 2)
      × (at_end ≡ at_rest))
    ⊎ ((validate float_tests the_config ≡ none) × (0 ≤ 1))
RunCommand_codes_example =
    RunCommand_codes machine float_tests 0 Signalled given flags [] command_passes

-- A server on which everything works and nothing more is signalled.
abbrev quiet_server : Server ℕ
quiet_server = record {
  open_resource = λ r w. (ok (codes "db"), w);
  close_resource = λ r w. w;
  exec = λ text w. (none, w);
  read_file = λ path w. (ok (codes "BEGIN x; END"), w);
  collect_signals = λ w. (([], none), w);
  is_cancelled = λ w. false;
  is_timed_out = λ w. false;
  dir = λ path. codes "/";
}

abbrev show_error : WorkflowError → Bytes
show_error e = codes "error"

the_run_executed :
    Executes quiet_server show_error the_config false [] (the_source ∷ []) the_test the_run
unfolding execute_for new_executor
the_run_executed = (codes "c", 1, 0, refl)

command-Executes :
    RunCommand machine float_tests 0
      (Executes quiet_server show_error the_config)
      given
      flags
      []
      at_rest
      0
      at_end
unfolding override bytes_eq new_config
command-Executes = RunCommand.exited 0 at_end the_config_accepted (
    Run.ran the_prepared opened_pool [] (some the_run ∷ []) [] connected [] at_end.world
      (Ending.exited 0) machine_prepares machine_connects refl
      (Executed.in_order (the_run ∷ []) refl
        (Batch.more the_test the_run the_run_executed (Batch.done false)) refl)
      machine_concludes)

RunCommand-AllExecuted_example :
    AllExecuted machine float_tests 0 quiet_server show_error given flags []
RunCommand-AllExecuted_example =
    RunCommand-AllExecuted machine float_tests 0 quiet_server show_error given flags []
      command-Executes
