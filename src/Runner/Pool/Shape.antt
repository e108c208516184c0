-- ===== src/Runner/Pool/Shape.antt =====
-- How the channels, the workers and the caller of the pool agree on what is closed.
use pgcov.Base.{
  ℕ, suc, ◌+◌, ◌≤◌, ◌<◌, Bool, true, false, List, [], ◌∷◌, ◌≡◌, refl, ap, ◌∙◌, arith, length,
  length-append,
}
use pgcov.Runner.{TestRun}
use pgcov.Instrument.Files.{SourceFile}
use pgcov.Runner.Pool.{
  TestJob, TestResult, Worker, Phase, System, Goes, AllFinished, jobs_from, Step, launched,
}
use pgcov.Runner.Pool.Places.{total, total-Goes, total-replicate, length-replicate, length-Goes}

abbrev pub is_finished : Worker → ℕ
is_finished Worker.finished = 1
is_finished _ = 0

finished-le : (ws : List Worker) → total is_finished ws ≤ length ws
unfolding total
finished-le [] = omega arith
finished-le (Worker.finished ∷ ws) = omega (arith, finished-le ws)
finished-le (Worker.ready ∷ ws) = omega (arith, finished-le ws)
finished-le (Worker.holding j ∷ ws) = omega (arith, finished-le ws)
finished-le (Worker.executing j ∷ ws) = omega (arith, finished-le ws)
finished-le (Worker.delivering r ∷ ws) = omega (arith, finished-le ws)

-- Where a worker that has not returned takes a step, not all have returned.
unfinished :
    {w w' : Worker} {k : ℕ} {ws ws' : List Worker}
    → Goes w w' k ws ws'
    → is_finished w ≡ 0
    → total is_finished ws < length ws
unfolding total
unfinished (Goes.first ws) e = omega (arith, e, finished-le ws)
unfinished (Goes.later Worker.finished g) e = omega (arith, unfinished g e)
unfinished (Goes.later Worker.ready g) e = omega (arith, unfinished g e)
unfinished (Goes.later (Worker.holding j) g) e = omega (arith, unfinished g e)
unfinished (Goes.later (Worker.executing j) g) e = omega (arith, unfinished g e)
unfinished (Goes.later (Worker.delivering r) g) e = omega (arith, unfinished g e)

AllFinished-total : {ws : List Worker} → AllFinished ws → total is_finished ws ≡ length ws
unfolding total
AllFinished-total AllFinished.none_left = refl
AllFinished-total (AllFinished.one_more a) = omega (arith, AllFinished-total a)

pub AllFinished-of : (ws : List Worker) → total is_finished ws ≡ length ws → AllFinished ws
unfolding total
AllFinished-of [] e = AllFinished.none_left
AllFinished-of (Worker.finished ∷ ws) e =
    AllFinished.one_more (AllFinished-of ws (omega (arith, e)))
AllFinished-of (Worker.ready ∷ ws) e = absurd (omega (arith, e, finished-le ws))
AllFinished-of (Worker.holding j ∷ ws) e = absurd (omega (arith, e, finished-le ws))
AllFinished-of (Worker.executing j ∷ ws) e = absurd (omega (arith, e, finished-le ws))
AllFinished-of (Worker.delivering r ∷ ws) e = absurd (omega (arith, e, finished-le ws))

pub jobs_from-length : (i : ℕ) (fs : List SourceFile) → length (jobs_from i fs) ≡ length fs
jobs_from-length i [] = refl
jobs_from-length i (f ∷ fs) = omega (arith, jobs_from-length (suc i) fs)

pub record Shaped (n room : ℕ) (phase : Phase) (unsent jobs : List TestJob) (closed : Bool)
    (workers : List Worker) (results : List TestResult) (results_closed : Bool) : Type 0 where
  pub sent : closed ≡ true → unsent ≡ []
  pub ranging : closed ≡ false → phase ≡ Phase.sending
  pub idle : 0 < total is_finished workers → (jobs ≡ []) × (closed ≡ true)
  pub done : results_closed ≡ true → total is_finished workers ≡ length workers
  pub left : phase ≡ Phase.returned → (results_closed ≡ true) × (results ≡ [])
  pub crew : length workers ≡ n
  pub fits : length unsent + length jobs ≤ room

module _ (n : ℕ) where
  abbrev pub IsShaped : System → Type 0
  IsShaped s =
      Shaped n s.room s.phase s.unsent s.jobs s.jobs_closed s.workers s.results s.results_closed

  -- A worker that has a job goes on, and does not return.
  working_step :
      (s : System) {w w' : Worker} {k : ℕ} {ws : List Worker} (results : List TestResult)
      → Goes w w' k s.workers ws
      → is_finished w ≡ 0
      → is_finished w' ≡ 0
      → IsShaped s
      → Shaped n s.room s.phase s.unsent s.jobs s.jobs_closed ws results s.results_closed
  working_step s results g e e' h = record {
    sent = h.sent;
    ranging = h.ranging;
    idle = λ p. h.idle (omega (arith, total-Goes is_finished g));
    done = λ c. absurd (omega (arith, h.done c, unfinished g e));
    left = λ p. absurd (omega (arith, h.done (h.left p).0, unfinished g e));
    crew = length-Goes g ∙ h.crew;
    fits = h.fits;
  }

  pub IsShaped-Step :
      {Outcome : SourceFile → TestRun → Type 0} {s t : System}
      → Step Outcome s t
      → IsShaped s
      → IsShaped t
  IsShaped-Step {s = s} (Step.send job rest p e room) h = record {
    sent = λ c. let x = h.sent c in absurd (cc);
    ranging = h.ranging;
    idle = λ f. let x = h.sent (h.idle f).1 in absurd (cc);
    done = h.done;
    left = h.left;
    crew = h.crew;
    fits = omega (arith, h.fits, ap length e, length-append {0} s.jobs (job ∷ []));
  }
  IsShaped-Step {s = s} (Step.close_jobs p e) h = record {
    sent = λ _. e;
    ranging = λ c. absurd (cc);
    idle = λ f. ((h.idle f).0, refl);
    done = h.done;
    left = λ q. absurd (cc);
    crew = h.crew;
    fits = h.fits;
  }
  IsShaped-Step {s = s} (Step.receive job rest i ws e g) h =
      let m = working_step s s.results g refl refl h in
      record {
        sent = h.sent;
        ranging = h.ranging;
        idle = λ f. let x = (h.idle (omega (arith, f, total-Goes is_finished g))).0 in absurd (cc);
        done = m.done;
        left = m.left;
        crew = m.crew;
        fits = omega (arith, h.fits, ap length e);
      }
  IsShaped-Step {s = s} (Step.finish i ws e c g) h = record {
    sent = h.sent;
    ranging = h.ranging;
    idle = λ f. (e, c);
    done = λ d. absurd (omega (arith, h.done d, unfinished g refl));
    left = λ p. absurd (omega (arith, h.done (h.left p).0, unfinished g refl));
    crew = length-Goes g ∙ h.crew;
    fits = h.fits;
  }
  IsShaped-Step {s = s} (Step.start job i ws c g) h = working_step s s.results g refl refl h
  IsShaped-Step {s = s} (Step.skip job d r i ws c g) h = working_step s s.results g refl refl h
  IsShaped-Step {s = s} (Step.execute job run i ws o g) h = working_step s s.results g refl refl h
  IsShaped-Step {s = s} (Step.deliver result i ws room g) h = working_step s _ g refl refl h
  IsShaped-Step {s = s} (Step.close_results c a) h = record {
    sent = h.sent;
    ranging = h.ranging;
    idle = h.idle;
    done = λ _. AllFinished-total a;
    left = λ p. let x = (h.left p).0 in absurd (cc);
    crew = h.crew;
    fits = h.fits;
  }
  IsShaped-Step {s = s} (Step.collect result rest p e) h = record {
    sent = h.sent;
    ranging = h.ranging;
    idle = h.idle;
    done = h.done;
    left = λ q. absurd (cc);
    crew = h.crew;
    fits = h.fits;
  }
  IsShaped-Step {s = s} (Step.leave p e c) h = record {
    sent = h.sent;
    ranging = λ d. let x = h.ranging d in absurd (cc);
    idle = h.idle;
    done = h.done;
    left = λ q. (c, e);
    crew = h.crew;
    fits = h.fits;
  }
  IsShaped-Step (Step.cancel e) h = h

  pub launched-IsShaped : (tests : List SourceFile) (c : Bool) → IsShaped (launched n tests c)
  launched-IsShaped tests c = record {
    sent = λ q. absurd (cc);
    ranging = λ _. refl;
    idle = λ f. absurd (omega (arith, total-replicate is_finished n Worker.ready refl));
    done = λ q. absurd (cc);
    left = λ q. absurd (cc);
    crew = length-replicate n Worker.ready;
    fits = omega (arith, jobs_from-length 0 tests);
  }
