-- ===== src/Harness/Pool.antt =====
-- `Pool` of reports/issue-0154/tools/harness/pool.py: the jobs of a run in a child process, which is
-- replaced after a crash or a timeout. What the children do is a parameter.
pub mod Fresh
mod Tests
use xpact.Prelude.{
  ℕ, zero, suc, ◌+◌, String, Bool, Option, none, some, List, [], ◌∷◌, if◌then◌else◌,
}
use xpact.Prelude.Int.{ℤ}

-- A child with its number among all that were started.
pub record Pool : Type 0 where
  pub proc : Option ℕ
  pub started : ℕ

-- What comes back for a job within the time: a line, nothing, or the end of the output, which a
-- write that fails counts as.
pub data Reply : Type 0 where
  line : String → Reply
  silence : Reply
  ended : ℤ → Reply

pub data Result : Type 0 where
  answer : String → Result
  timeout : Result
  crash : ℤ → Result

pub record Children (Job : Type 0) : Type 0 where
  -- `self.proc.poll() is not None` before a job
  pub stopped : ℕ → Job → Bool
  pub reply : ℕ → Job → Reply

abbrev pub empty_pool : Pool
empty_pool = record { proc = none; started = 0 }

abbrev pub start : Pool → Pool
start pool = record { proc = some pool.started; started = suc pool.started }

module _ {Job : Type 0} (children : Children Job) where
  -- `if self.proc is None or self.proc.poll() is not None: self._start()`, with the child's number.
  abbrev pub ready : Option ℕ → Pool → Job → Pool × ℕ
  ready none pool job = (start pool, pool.started)
  ready (some child) pool job =
      if children.stopped child job then (start pool, pool.started) else (pool, child)

  abbrev pub receive : Pool → Reply → Pool × Result
  receive pool (line text) = (pool, answer text)
  receive pool silence = (record pool { proc = none }, timeout)
  receive pool (ended code) = (record pool { proc = none }, crash code)

  -- A job, with the child that it was sent to.
  unfoldable pub run : Pool → Job → Pool × (ℕ × Result)
  run pool job =
      let (current, child) = ready pool.proc pool job in
      let (after, result) = receive current (children.reply child job) in (after, (child, result))

  unfoldable pub run_all : Pool → List Job → List (ℕ × Result)
  unfolding run
  run_all pool [] = []
  run_all pool (job ∷ jobs) = let (after, entry) = run pool job in entry ∷ run_all after jobs
