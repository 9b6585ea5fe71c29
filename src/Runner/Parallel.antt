-- ===== src/Runner/Parallel.antt =====
-- Run of internal/runner/runner.go with MaxParallel above one: the targets of a level run at the
-- same time, each in a goroutine that waits for the semaphore `sem`. What a goroutine does next is a
-- step: it is let in by the semaphore, and in runTargetWithCache by the pool and then by the mutex of
-- its target; the run behind these is a single result. Which goroutine goes first is left open.
pub mod Apart
pub mod Bounded
pub mod Stands
pub mod Complete
mod Tests
use mathlib.Core.Option
use go_bake.Base.{
  ℕ, zero, suc, ◌<◌, ◌≡◌, Bool, true, false, Option, none, some, List, [], ◌∷◌, ◌++◌, ◌||◌, not,
  Text, Has, length, ◌==◌, if◌then◌else◌,
}
use go_bake.Config.{File, target_by_name}
use go_bake.Resolve.Expand.{is_empty}
use go_bake.Runner.Steps.{RunError}

-- The levels that are still to come, the goroutines of this level before the semaphore, between it
-- and the pool, between the pool and the mutex, and behind the mutex, the targets that have ended
-- without an error, `firstErr`, how many values the channel `sem` holds, and whether the context is
-- done.
pub record Group : Type 0 where
  pub levels : List (List Text)
  pub waiting : List Text
  pub entered : List Text
  pub pooled : List Text
  pub running : List Text
  pub finished : List Text
  pub first_error : Option RunError
  pub sem : ℕ
  pub ctx_done : Bool

abbrev is_some {ℓ} : {A : Type ℓ} → Option A → Bool
is_some none = Bool.false
is_some (some a) = Bool.true

-- The targets of a level that get a goroutine.
unfoldable pub spawn : File → List Text → List Text
unfolding target_by_name
spawn cfg [] = []
spawn cfg (n ∷ ns) =
    let rest = spawn cfg ns in if is_some (target_by_name cfg n) then n ∷ rest else rest

-- One goroutine less.
unfoldable pub leave : Text → List Text → List Text
unfolding ◌==◌
leave n [] = []
leave n (x ∷ xs) = let rest = leave n xs in if x == n then xs else x ∷ rest

abbrev pub keep_first : Option RunError → RunError → Option RunError
keep_first none e = some e
keep_first (some first) e = some first

-- The semaphore lets a goroutine in.
abbrev pub enter : Text → Group → Group
enter n s = record s { waiting = leave n s.waiting; entered = n ∷ s.entered; sem = suc s.sem }

-- The pool and the mutex of a target; none if it is empty.
abbrev pub pool_of : File → Text → Text
pool_of cfg n = elim (target_by_name cfg n) [ none ↦ [] | some t ↦ t.pool ]

abbrev pub mutex_of : File → Text → Text
mutex_of cfg n = elim (target_by_name cfg n) [ none ↦ [] | some t ↦ t.mutex ]

abbrev pub is_held : (Text → Text) → Text → List Text → Bool
is_held of n [] = false
is_held of n (m ∷ ms) = of m == of n || is_held of n ms

-- No holder has the pool, or the mutex, of the target.
abbrev pub is_free : (Text → Text) → Text → List Text → Bool
is_free of n holders = is_empty (of n) || not (is_held of n holders)

-- The pool lets a goroutine in, and then the mutex.
abbrev pub enter_pool : Text → Group → Group
enter_pool n s = record s { entered = leave n s.entered; pooled = n ∷ s.pooled }

abbrev pub lock : Text → Group → Group
lock n s = record s { pooled = leave n s.pooled; running = n ∷ s.running }

-- `<-sem`
abbrev pub received : ℕ → ℕ
received zero = zero
received (suc n) = n

abbrev pub cancel : Group → Group
cancel s = record s { ctx_done = true }

-- The context is done before the semaphore lets a goroutine in.
abbrev pub give_up : Text → RunError → Group → Group
give_up n e s = record s { waiting = leave n s.waiting; first_error = keep_first s.first_error e }

-- The context is done before the pool lets a goroutine in; the deferred receive gives the slot back.
abbrev pub give_up_pool : Text → RunError → Group → Group
give_up_pool n e s = record s {
  entered = leave n s.entered;
  first_error = keep_first s.first_error e;
  sem = received s.sem;
}

-- runTargetWithCache returns, which frees the pool and the mutex, and the deferred receive gives the
-- slot back.
abbrev pub return : Text → Option RunError → Group → Group
return n none s = record s {
  running = leave n s.running;
  finished = n ∷ s.finished;
  sem = received s.sem;
}
return n (some e) s = record s {
  running = leave n s.running;
  first_error = keep_first s.first_error e;
  sem = received s.sem;
}

abbrev pub begin : File → List Text → List (List Text) → Group → Group
begin cfg level levels s = record s { levels = levels; waiting = spawn cfg level }

abbrev pub start : List (List Text) → Group
start levels = record {
  levels = levels;
  waiting = [];
  entered = [];
  pooled = [];
  running = [];
  finished = [];
  first_error = none;
  sem = 0;
  ctx_done = false;
}

-- No goroutine is behind the semaphore.
abbrev pub Idle : Group → Type 0
Idle s = (s.entered ≡ []) × (s.pooled ≡ []) × (s.running ≡ [])

-- A send to `sem` needs room in the channel; the context can be done at any time, and stays so; the
-- next level begins when no goroutine is left and none has failed.
pub data Next (cfg : File) (max_parallel : ℕ) (s : Group) : Group → Type 0 where
  enters : (n : Text) → Has s.waiting n → s.sem < max_parallel → Next cfg max_parallel s (enter n s)
  gives_up :
      (n : Text) (e : RunError)
      → Has s.waiting n
      → s.ctx_done ≡ true
      → Next cfg max_parallel s (give_up n e s)
  pools :
      (n : Text)
      → Has s.entered n
      → is_free (pool_of cfg) n (s.pooled ++ s.running) ≡ true
      → Next cfg max_parallel s (enter_pool n s)
  gives_up_pool :
      (n : Text) (e : RunError)
      → Has s.entered n
      → is_empty (pool_of cfg n) ≡ false
      → s.ctx_done ≡ true
      → Next cfg max_parallel s (give_up_pool n e s)
  locks :
      (n : Text)
      → Has s.pooled n
      → is_free (mutex_of cfg) n s.running ≡ true
      → Next cfg max_parallel s (lock n s)
  cancels : s.ctx_done ≡ false → Next cfg max_parallel s (cancel s)
  returns :
      (n : Text) (result : Option RunError)
      → Has s.running n
      → Next cfg max_parallel s (return n result s)
  begins :
      (level : List Text) (levels : List (List Text))
      → s.waiting ≡ []
      → Idle s
      → s.first_error ≡ none
      → s.levels ≡ level ∷ levels
      → Next cfg max_parallel s (begin cfg level levels s)

pub data Reached (cfg : File) (max_parallel : ℕ) (levels : List (List Text)) : Group → Type 0 where
  at_start : Reached cfg max_parallel levels (start levels)
  after :
      {s t : Group}
      → Reached cfg max_parallel levels s
      → Next cfg max_parallel s t
      → Reached cfg max_parallel levels t

-- wg.Wait has returned for the last time: an error, or no level is left.
pub data Stopped (s : Group) : Type 0 where
  failed : (e : RunError) → s.waiting ≡ [] → Idle s → s.first_error ≡ some e → Stopped s
  done : s.waiting ≡ [] → Idle s → s.first_error ≡ none → s.levels ≡ [] → Stopped s
