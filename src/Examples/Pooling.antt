-- ===== src/Examples/Pooling.antt =====
-- The worker pool at concrete inputs.
use pgcov.Base.{
  ℕ, ◌≤◌, ◌<◌, ◌*◌, ◌+◌, false, none, some, List, [], ◌∷◌, codes, ◌≡◌, refl, length, get_elem?,
  arith,
}
use pgcov.Instrument.Files.{SourceFile}
use pgcov.Runner.{TestStatus, TestRun}
use pgcov.Runner.Pool.{
  Phase, System, Goes, AllFinished, Step, Steps, launched, new_worker_pool, ExecuteParallel,
}
use pgcov.Runner.Pool.Checked.{IsRun}
use pgcov.Runner.Pool.Complete.{RunEach, pool_fills, ExecuteParallel-RunEach}
use pgcov.Runner.Pool.Progress.{steps_bounded, pool_returns}

abbrev passed_run : SourceFile → TestRun
passed_run f = record {
  test = some f;
  database = codes "db";
  duration = 1;
  status = TestStatus.test_passed;
  error = none;
  coverage_sigs = [];
}

-- Every test passes.
abbrev Passes : SourceFile → TestRun → Type 0
Passes f run = run ≡ passed_run f

abbrev test_a : SourceFile
test_a = record { path = codes "/r/a_test.sql"; relative_path = codes "a_test.sql" }

abbrev test_b : SourceFile
test_b = record { path = codes "/r/b_test.sql"; relative_path = codes "b_test.sql" }

abbrev two_tests : List SourceFile
two_tests = test_a ∷ test_b ∷ []

-- Two workers, the second of which takes the first test; the second test comes back first.
abbrev crossed : (s : System) × Steps Passes (launched 2 two_tests false) 17 s
crossed = (
  _,
  Steps.next
      (Steps.next
        (Steps.next
          (Steps.next
            (Steps.next
              (Steps.next
                (Steps.next
                  (Steps.next
                    (Steps.next
                      (Steps.next
                        (Steps.next
                          (Steps.next
                            (Steps.next
                              (Steps.next
                                (Steps.next
                                  (Steps.next
                                    (Steps.next Steps.here (Step.send _ _ refl refl (omega arith)))
                                    (Step.send _ _ refl refl (omega arith)))
                                  (Step.close_jobs refl refl))
                                (Step.receive _ _ 1 _ refl (Goes.later _ (Goes.first _))))
                              (Step.receive _ _ 0 _ refl (Goes.first _)))
                            (Step.start _ 0 _ refl (Goes.first _)))
                          (Step.start _ 1 _ refl (Goes.later _ (Goes.first _))))
                        (Step.execute _ _ 0 _ refl (Goes.first _)))
                      (Step.deliver _ 0 _ (omega arith) (Goes.first _)))
                    (Step.execute _ _ 1 _ refl (Goes.later _ (Goes.first _))))
                  (Step.finish 0 _ refl refl (Goes.first _)))
                (Step.deliver _ 1 _ (omega arith) (Goes.later _ (Goes.first _))))
              (Step.finish 1 _ refl refl (Goes.later _ (Goes.first _))))
            (Step.collect _ _ refl refl))
          (Step.collect _ _ refl refl))
        (Step.close_results refl
          (AllFinished.one_more (AllFinished.one_more AllFinished.none_left))))
      (Step.leave refl refl refl),
)

abbrev crossed_end : System
crossed_end = crossed.0

crossed_end_runs : crossed_end.runs ≡ some (passed_run test_a) ∷ some (passed_run test_b) ∷ []
crossed_end_runs = refl

pool_fills_example :
    (length crossed_end.runs ≡ 2)
    × ((i : ℕ)
        → i < 2
        → (run : TestRun) × (get_elem? crossed_end.runs i ≡ some (some run))
          × IsRun Passes two_tests false i run)
pool_fills_example = pool_fills Passes 2 17 two_tests false crossed_end (omega arith) crossed.1 refl

steps_bounded_example : 17 ≤ 6 * 2 + 2 + 4
steps_bounded_example = steps_bounded Passes 2 17 two_tests false crossed_end crossed.1

-- From the start, with one job to come.
pool_returns_example :
    (more : ℕ) × (t : System) × Steps Passes (launched 2 two_tests false) more t
    × (t.phase ≡ Phase.returned)
pool_returns_example =
    pool_returns Passes (λ f. (passed_run f, refl)) 2 0 two_tests false (launched 2 two_tests false)
      (omega arith) Steps.here

crossed_result : ExecuteParallel Passes (new_worker_pool 2 false) two_tests false crossed_end.runs
unfolding new_worker_pool
crossed_result = ExecuteParallel.concurrent false 17 crossed_end refl refl crossed.1 refl refl refl

ExecuteParallel-RunEach_example : RunEach Passes two_tests crossed_end.runs
ExecuteParallel-RunEach_example =
    ExecuteParallel-RunEach Passes 2 false two_tests crossed_end.runs crossed_result
