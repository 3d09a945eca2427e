-- ===== src/Model/AsyncPool.antt =====
-- model/asyncpool.go: the pool of workers that runs the HTTP actions whose response nobody reads, as
-- steps of its goroutines in any order. `J` stands for the closures.
pub mod Sound
pub mod Drained
use brokr.Common.{
  ℕ, zero, suc, ◌+◌, ◌-◌, ◌<◌, String, Option, none, some, List, [], ◌∷◌, ◌++◌, length, ltb, ◌≡◌,
  if◌then◌else◌,
}

-- What strconv.Atoi reads; `negsuc n` is -(n + 1).
pub data ℤ : Type 0 where
  pos : ℕ → ℤ
  negsuc : ℕ → ℤ

-- envInt, from the value of the variable ("" where it is not set)
unfoldable pub env_int : Option ℤ → ℤ → ℤ
env_int none default_value = default_value
env_int (some n) default_value = n

-- max(n, 1)
unfoldable pub at_least_one : ℤ → ℕ
at_least_one (negsuc n) = 1
at_least_one (pos n) = if ltb n 1 then 1 else n

pub record AsyncPool (J : Type 0) : Type 0 where
  pub workers : ℕ
  -- the capacity of the channel
  pub queue_size : ℕ
  -- goroutines that wait in `p.jobs <- job`
  pub senders : List J
  pub jobs : List J
  -- what the workers run
  pub running : List J
  -- the counter of the WaitGroup
  pub count : ℕ
  -- the history, which no step reads
  pub submitted : List J
  pub finished : List J

-- getPool, from the values of BROKR_ASYNC_WORKERS and BROKR_ASYNC_QUEUE
unfoldable pub new_pool : {J : Type 0} → Option ℤ → Option ℤ → ℕ → AsyncPool J
unfolding env_int at_least_one
new_pool workers queue processors = record {
  workers = at_least_one (env_int workers (pos (processors + processors)));
  queue_size = at_least_one (env_int queue (pos 1024));
  senders = [];
  jobs = [];
  running = [];
  count = 0;
  submitted = [];
  finished = [];
}

module _ {J : Type 0} where
  -- p.wg.Add(1), by a goroutine that will send
  unfoldable pub submit : J → AsyncPool J → AsyncPool J
  submit job p = record p {
    senders = p.senders ++ job ∷ [];
    count = p.count + 1;
    submitted = p.submitted ++ job ∷ [];
  }

  -- p.jobs <- job
  unfoldable pub enqueue : J → List J → AsyncPool J → AsyncPool J
  enqueue job others p = record p { senders = others; jobs = p.jobs ++ job ∷ [] }

  -- for job := range p.jobs
  unfoldable pub receive : J → List J → AsyncPool J → AsyncPool J
  receive job rest p = record p { jobs = rest; running = p.running ++ job ∷ [] }

  -- job() returns, and p.wg.Done()
  unfoldable pub finish : J → List J → AsyncPool J → AsyncPool J
  finish job others p = record p {
    running = others;
    count = p.count - 1;
    finished = p.finished ++ job ∷ [];
  }

  -- DrainAsyncPool returns.
  abbrev pub IsDrained : AsyncPool J → Type 0
  IsDrained p = p.count ≡ 0

  -- One step of one goroutine; a worker that runs no job waits for one.
  pub data Step (p : AsyncPool J) : AsyncPool J → Type 0 where
    submits : (job : J) → Step p (submit job p)
    sends :
        (job : J) (before after : List J)
        → p.senders ≡ before ++ job ∷ after
        → length p.jobs < p.queue_size
        → Step p (enqueue job (before ++ after) p)
    receives :
        (job : J) (rest : List J)
        → p.jobs ≡ job ∷ rest
        → length p.running < p.workers
        → Step p (receive job rest p)
    finishes :
        (job : J) (before after : List J)
        → p.running ≡ before ++ job ∷ after
        → Step p (finish job (before ++ after) p)

  pub data Reach (start : AsyncPool J) : AsyncPool J → Type 0 where
    here : Reach start start
    next : {p q : AsyncPool J} → Reach start p → Step p q → Reach start q
