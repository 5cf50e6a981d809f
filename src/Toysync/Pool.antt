-- ===== src/Toysync/Pool.antt =====
-- `ThreadPool` and `Worker` of origin-toysync/src/main.rs, with the threads interleaved in any
-- order. A job is whatever `execute` is given; `returns` tells whether its call returns or panics.
pub mod Counts
pub mod Moves
pub mod Agree
pub mod Order
pub mod Survival
pub mod Progress
pub mod Shutdown
mod Tests
use benchmark_reverse_proxie.Common.{
  ℕ, zero, suc, ◌<◌, ◌≡◌, Bool, true, false, List, [], ◌∷◌, ◌++◌, Option, none, some, get_elem?,
  set, replicate, ltb, if◌then◌else◌,
}

-- Where the thread of a worker stands: before `lock`, in `recv` with the lock held, in `job()` with
-- the lock released, or ended by a panic.
pub data Worker (Job : Type 0) : Type 0 where
  waiting : Worker Job
  receiving : Worker Job
  running : Job → Worker Job
  dead : Worker Job

-- The mutex round the receiver; a panic of its holder poisons it.
pub data Lock : Type 0 where
  free held poisoned : Lock

pub record ThreadPool (Job : Type 0) : Type 0 where
  pub workers : List (Worker Job)
  pub lock : Lock
  pub channel : List Job  -- sent and not received, oldest first
  pub sender : Bool  -- the pool's end of the channel is there
  -- the history: what was sent, what was received, and how its jobs ended
  pub sent : List Job
  pub received : List Job
  pub returned : List Job
  pub crashed : List Job

module _ {Job : Type 0} where
  -- `ThreadPool::new`: `none` is the failed `assert!(size > 0)`.
  unfoldable pub new : ℕ → Option (ThreadPool Job)
  new size =
      if ltb 0 size
      then some (record {
        workers = replicate size waiting;
        lock = free;
        channel = [];
        sender = true;
        sent = [];
        received = [];
        returned = [];
        crashed = [];
      })
      else none

  -- The receiver lives in the closures of the workers, so it is dropped with the last of them.
  pub has_receiver : List (Worker Job) → Bool
  has_receiver [] = false
  has_receiver (dead ∷ ws) = has_receiver ws
  has_receiver (_ ∷ ws) = true

  -- With the receiver goes what waits in the channel.
  pub kept : List (Worker Job) → List Job → List Job
  unfolding has_receiver
  kept ws jobs = if has_receiver ws then jobs else []

  -- `execute`: `send` fails if the receiver is gone, and then `unwrap` panics (`none`).
  unfoldable pub execute : ThreadPool Job → Job → Option (ThreadPool Job)
  unfolding has_receiver
  execute p job =
      if has_receiver p.workers
      then some (record p { channel = p.channel ++ job ∷ []; sent = p.sent ++ job ∷ [] })
      else none

  -- The pool has no `drop` of its own: with its field `sender` the only end to send at goes.
  unfoldable pub close : ThreadPool Job → ThreadPool Job
  close p = record p { sender = false }

  module _ (returns : Job → Bool) where
    -- `receiver.lock().unwrap()`: it blocks (`none`) while the lock is held, and panics if it is
    -- poisoned.
    lock_turn : ThreadPool Job → ℕ → Lock → Option (ThreadPool Job)
    unfolding kept
    lock_turn p i free = some (record p { workers = set p.workers i receiving; lock = held })
    lock_turn p i held = none
    lock_turn p i poisoned =
        let ws = set p.workers i dead in
        some (record p { workers = ws; channel = kept ws p.channel })

    -- `recv().unwrap()`: it blocks on an empty channel with a sender, and panics on one without
    -- (there is then nothing in the channel to lose). The guard of the lock is dropped at the end
    -- of the statement, before `job()`; a panic drops it poisoned.
    recv_turn : ThreadPool Job → ℕ → List Job → Bool → Option (ThreadPool Job)
    recv_turn p i (job ∷ rest) sender = some (record p {
      workers = set p.workers i (running job);
      lock = free;
      channel = rest;
      received = p.received ++ job ∷ [];
    })
    recv_turn p i [] true = none
    recv_turn p i [] false = some (record p { workers = set p.workers i dead; lock = poisoned })

    -- `job()`: the loop goes round, or the panic ends the thread; if that was the last thread, the
    -- jobs that wait are lost.
    job_turn : ThreadPool Job → ℕ → Job → Option (ThreadPool Job)
    unfolding kept
    job_turn p i job =
        if returns job
        then some
            (record p { workers = set p.workers i waiting; returned = p.returned ++ job ∷ [] })
        else (let ws = set p.workers i dead in
            some (record p {
              workers = ws;
              channel = kept ws p.channel;
              crashed = p.crashed ++ job ∷ [];
            }))

    worker_turn : ThreadPool Job → ℕ → Option (Worker Job) → Option (ThreadPool Job)
    unfolding lock_turn recv_turn job_turn
    worker_turn p i none = none
    worker_turn p i (some waiting) = lock_turn p i p.lock
    worker_turn p i (some receiving) = recv_turn p i p.channel p.sender
    worker_turn p i (some (running job)) = job_turn p i job
    worker_turn p i (some dead) = none

    -- The next step of the loop of `Worker::new` by thread `i`; `none` if it cannot move.
    unfoldable pub turn : ThreadPool Job → ℕ → Option (ThreadPool Job)
    unfolding worker_turn
    turn p i = worker_turn p i (get_elem? p.workers i)

    -- What may happen next: the owner of the pool sends a job or drops the pool, or a thread moves.
    pub data Step (p : ThreadPool Job) (q : ThreadPool Job) : Type 0 where
      send : (job : Job) → p.sender ≡ true → execute p job ≡ some q → Step p q
      drops : q ≡ close p → Step p q
      moves : (i : ℕ) → turn p i ≡ some q → Step p q

    pub data Reach (size : ℕ) : ThreadPool Job → Type 0 where
      start : {p : ThreadPool Job} → new size ≡ some p → Reach size p
      later : {p q : ThreadPool Job} → Reach size p → Step p q → Reach size q
