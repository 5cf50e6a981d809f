-- ===== src/Toysync/Pool/Agree.antt =====
-- A turn asks only how the job ends that its thread runs.
use benchmark_reverse_proxie.Common.{
  ℕ, ◌≡◌, refl, sym, ◌∙◌, Bool, true, false, List, [], ◌∷◌, Option, none, some, get_elem?, ◌<◌,
  length, if◌then◌else◌, get_elem?-lt, Option-cases, inl, inr,
}
use benchmark_reverse_proxie.Toysync.Pool.{
  Worker, waiting, receiving, running, dead, Lock, free, held, poisoned, ThreadPool, turn,
  lock_turn, recv_turn, job_turn, worker_turn,
}

if_some : {A : Type 0} (b : Bool) (x y : A) → (z : A) × ((if b then some x else some y) ≡ some z)
if_some true x y = (x, refl)
if_some false x y = (y, refl)

module _ {Job : Type 0} (f g : Job → Bool) (p : ThreadPool Job) (i : ℕ) where
  lock_turn-agree : (l : Lock) → lock_turn f p i l ≡ lock_turn g p i l
  unfolding lock_turn
  lock_turn-agree free = refl
  lock_turn-agree held = refl
  lock_turn-agree poisoned = refl

  recv_turn-agree :
      (jobs : List Job) (sender : Bool) → recv_turn f p i jobs sender ≡ recv_turn g p i jobs sender
  unfolding recv_turn
  recv_turn-agree (job ∷ rest) sender = refl
  recv_turn-agree [] true = refl
  recv_turn-agree [] false = refl

  worker_turn-agree :
      (o : Option (Worker Job))
      → ((job : Job) → o ≡ some (running job) → f job ≡ g job)
      → worker_turn f p i o ≡ worker_turn g p i o
  unfolding worker_turn job_turn
  worker_turn-agree none h = refl
  worker_turn-agree (some waiting) h = lock_turn-agree p.lock
  worker_turn-agree (some receiving) h = recv_turn-agree p.channel p.sender
  worker_turn-agree (some (running job)) h = rw (h job refl)
  worker_turn-agree (some dead) h = refl

  pub turn-agree :
      ((job : Job) → get_elem? p.workers i ≡ some (running job) → f job ≡ g job)
      → turn f p i ≡ turn g p i
  unfolding turn
  turn-agree h = worker_turn-agree (get_elem? p.workers i) h

  worker_turn-moves :
      (o : Option (Worker Job)) (q : ThreadPool Job)
      → worker_turn f p i o ≡ some q
      → (q' : ThreadPool Job) × (worker_turn g p i o ≡ some q')
  unfolding worker_turn job_turn
  worker_turn-moves none q h = cc
  worker_turn-moves (some waiting) q h = (q, sym (lock_turn-agree p.lock) ∙ h)
  worker_turn-moves (some receiving) q h = (q, sym (recv_turn-agree p.channel p.sender) ∙ h)
  worker_turn-moves (some (running job)) q h = if_some (g job) _ _
  worker_turn-moves (some dead) q h = cc

  -- Whether a thread can move does not depend on how the jobs end.
  pub turn-moves :
      (q : ThreadPool Job) → turn f p i ≡ some q → (q' : ThreadPool Job) × (turn g p i ≡ some q')
  unfolding turn
  turn-moves q h = worker_turn-moves (get_elem? p.workers i) q h

-- Only a thread that is there can move.
pub turn_there :
    {Job : Type 0} (f : Job → Bool) (p q : ThreadPool Job) (i : ℕ)
    → turn f p i ≡ some q
    → i < length p.workers
unfolding turn worker_turn
turn_there f p q i h = elim (Option-cases (get_elem? p.workers i)) [
  | inl out ↦ let never : none ≡ some q = rw out at h in cc
  | inr (w, there) ↦ get_elem?-lt p.workers i w there
]
