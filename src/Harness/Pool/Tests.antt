-- ===== src/Harness/Pool/Tests.antt =====
-- Children of which the first crashes at its second job.
use xpact.Prelude.{ℕ, ◌≡◌, refl, false, List, [], ◌∷◌, nat_eq, if◌then◌else◌}
use xpact.Prelude.Int.{pos}
use xpact.Harness.Pool.{
  line, silence, ended, answer, timeout, crash, Children, empty_pool, run, run_all,
}

abbrev crashing : Children ℕ
crashing = record {
  stopped = λ child job. false;
  reply = λ child job.
      if nat_eq job 2 then ended (pos 3) else if nat_eq job 3 then silence else line "{}";
}

abbrev four_jobs : List ℕ
four_jobs = 1 ∷ 2 ∷ 3 ∷ 4 ∷ []

run_all-crashing :
    run_all crashing empty_pool four_jobs
    ≡ (0, answer "{}") ∷ (0, crash (pos 3)) ∷ (1, timeout) ∷ (2, answer "{}") ∷ []
unfolding run_all run
run_all-crashing = refl
