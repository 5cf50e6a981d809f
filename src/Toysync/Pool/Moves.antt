-- ===== src/Toysync/Pool/Moves.antt =====
-- The turns of a thread, one case for each thing that its loop can do.
use mathlib.Core.Option.{some-injective}
use benchmark_reverse_proxie.Common.{
  ℕ, ◌≡◌, refl, sym, inl, inr, Bool, true, false, List, [], ◌∷◌, ◌++◌, Option, none, some,
  get_elem?, set, replicate, ltb, ltb→lt, ◌<◌, Bool-cases,
}
use benchmark_reverse_proxie.Toysync.Pool.{
  Worker, waiting, receiving, running, dead, new, execute, has_receiver, Step, Reach, start, later,
  Lock, free, held, poisoned, ThreadPool, kept, turn, lock_turn, recv_turn, job_turn, worker_turn,
}

module _ {Job : Type 0} (returns : Job → Bool) where
  pub data Move (p : ThreadPool Job) (i : ℕ) (q : ThreadPool Job) : Type 0 where
    takes_lock :
        get_elem? p.workers i ≡ some waiting
        → p.lock ≡ free
        → q ≡ record p { workers = set p.workers i receiving; lock = held }
        → Move p i q
    meets_poison :
        get_elem? p.workers i ≡ some waiting
        → p.lock ≡ poisoned
        → q ≡ record p {
          workers = set p.workers i dead;
          channel = kept (set p.workers i dead) p.channel;
        }
        → Move p i q
    receives :
        (job : Job) (rest : List Job)
        → get_elem? p.workers i ≡ some receiving
        → p.channel ≡ job ∷ rest
        → q ≡ record p {
          workers = set p.workers i (running job);
          lock = free;
          channel = rest;
          received = p.received ++ job ∷ [];
        }
        → Move p i q
    meets_close :
        get_elem? p.workers i ≡ some receiving
        → p.channel ≡ []
        → p.sender ≡ false
        → q ≡ record p { workers = set p.workers i dead; lock = poisoned }
        → Move p i q
    ends_job :
        (job : Job)
        → get_elem? p.workers i ≡ some (running job)
        → returns job ≡ true
        → q ≡ record p { workers = set p.workers i waiting; returned = p.returned ++ job ∷ [] }
        → Move p i q
    crashes :
        (job : Job)
        → get_elem? p.workers i ≡ some (running job)
        → returns job ≡ false
        → q ≡ record p {
          workers = set p.workers i dead;
          channel = kept (set p.workers i dead) p.channel;
          crashed = p.crashed ++ job ∷ [];
        }
        → Move p i q

  module _ (p : ThreadPool Job) (i : ℕ) (q : ThreadPool Job) where
    same : {a b : ThreadPool Job} → ◌≡◌ {A = Option (ThreadPool Job)} (some a) (some b) → b ≡ a
    same h = sym (some-injective _ _ h)

    lock_turn-Move :
        (l : Lock)
        → p.lock ≡ l
        → get_elem? p.workers i ≡ some waiting
        → lock_turn returns p i l ≡ some q
        → Move p i q
    unfolding lock_turn
    lock_turn-Move free e w h = takes_lock w e (same h)
    lock_turn-Move held e w h = cc
    lock_turn-Move poisoned e w h = meets_poison w e (same h)

    recv_turn-Move :
        (jobs : List Job) (sender : Bool)
        → p.channel ≡ jobs
        → p.sender ≡ sender
        → get_elem? p.workers i ≡ some receiving
        → recv_turn returns p i jobs sender ≡ some q
        → Move p i q
    unfolding recv_turn
    recv_turn-Move (job ∷ rest) sender e s w h = receives job rest w e (same h)
    recv_turn-Move [] true e s w h = cc
    recv_turn-Move [] false e s w h = meets_close w e s (same h)

    job_turn-Move :
        (job : Job)
        → get_elem? p.workers i ≡ some (running job)
        → job_turn returns p i job ≡ some q
        → Move p i q
    unfolding job_turn
    job_turn-Move job w h = elim (Bool-cases (returns job)) [
      | inl ok ↦ ends_job job w ok (same (rw ok at h))
      | inr bad ↦ crashes job w bad (same (rw bad at h))
    ]

    worker_turn-Move :
        (o : Option (Worker Job))
        → get_elem? p.workers i ≡ o
        → worker_turn returns p i o ≡ some q
        → Move p i q
    unfolding worker_turn
    worker_turn-Move none w h = cc
    worker_turn-Move (some waiting) w h = lock_turn-Move p.lock refl w h
    worker_turn-Move (some receiving) w h = recv_turn-Move p.channel p.sender refl refl w h
    worker_turn-Move (some (running job)) w h = job_turn-Move job w h
    worker_turn-Move (some dead) w h = cc

    pub turn-Move : turn returns p i ≡ some q → Move p i q
    unfolding turn
    turn-Move h = worker_turn-Move (get_elem? p.workers i) refl h

  -- What `execute` does where it does not panic.
  pub execute-sends :
      (p q : ThreadPool Job) (job : Job)
      → execute p job ≡ some q
      → q ≡ record p { channel = p.channel ++ job ∷ []; sent = p.sent ++ job ∷ [] }
  unfolding execute
  execute-sends p q job h = elim (Bool-cases (has_receiver p.workers)) [
    | inl there ↦ sym (some-injective _ _ (rw there at h))
    | inr gone ↦ let never : none ≡ some q = rw gone at h in cc
  ]

  pub execute_there :
      (p q : ThreadPool Job) (job : Job) → execute p job ≡ some q → has_receiver p.workers ≡ true
  unfolding execute
  execute_there p q job h = elim (Bool-cases (has_receiver p.workers)) [
    | inl there ↦ there
    | inr gone ↦ let never : none ≡ some q = rw gone at h in cc
  ]

  -- A property of the new pool that every step keeps holds of each pool that can be reached.
  pub Reach-induction {ℓ} :
      (P : ThreadPool Job → Type ℓ) (size : ℕ)
      → ((p : ThreadPool Job) → new size ≡ some p → P p)
      → ((p q : ThreadPool Job) → Step returns p q → P p → P q)
      → (p : ThreadPool Job) → Reach returns size p
      → P p
  Reach-induction P size base keep p (start e) = base p e
  Reach-induction P size base keep q (later {p = p} r s) =
      keep p q s (Reach-induction P size base keep p r)

  -- `new` with a size that passes its assertion.
  pub new-waits :
      (size : ℕ) (p : ThreadPool Job)
      → new size ≡ some p
      → (0 < size)
        × (p ≡ record {
          workers = replicate size waiting;
          lock = free;
          channel = [];
          sender = true;
          sent = [];
          received = [];
          returned = [];
          crashed = [];
        })
  unfolding new
  new-waits size p h = elim (Bool-cases (ltb 0 size)) [
    | inl yes' ↦ (ltb→lt 0 size yes', sym (some-injective _ _ (rw yes' at h)))
    | inr no' ↦ let never : none ≡ some p = rw no' at h in cc
  ]
