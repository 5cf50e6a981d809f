-- ===== src/Toysync/Pool/Tests.antt =====
-- Two threads, and jobs that are numbers: the odd ones panic.
use benchmark_reverse_proxie.Common.{
  ℕ, zero, suc, ◌%◌, ◌≤◌, ◌⊎◌, ◌≡◌, ◌≢◌, ◌↔◌, refl, Bool, true, false, [], ◌∷◌, ◌++◌, none, some,
  arith, length, ◌==◌,
}
use mathlib.Core.List.{Perm}
use benchmark_reverse_proxie.Toysync.Pool.{
  waiting, receiving, running, dead, free, held, ThreadPool, new, execute, turn, close, send, drops,
  moves, poisoned, Reach, start, later,
}
use benchmark_reverse_proxie.Toysync.Pool.Order.{IsOrdered, Reach-IsOrdered}
use benchmark_reverse_proxie.Toysync.Pool.Survival.{execute_panics_iff}
use benchmark_reverse_proxie.Toysync.Pool.Shutdown.{
  Turns, stays, then_moves, HasShutDown, drop_completes,
}
use benchmark_reverse_proxie.Toysync.Pool.Progress.{CanMove, work, rest_is_complete}

abbrev even : ℕ → Bool
even n = n % 2 == 0

abbrev fresh : ThreadPool ℕ
fresh = record {
  workers = waiting ∷ waiting ∷ [];
  lock = free;
  channel = [];
  sender = true;
  sent = [];
  received = [];
  returned = [];
  crashed = [];
}

abbrev one_sent : ThreadPool ℕ
one_sent = record fresh { channel = 7 ∷ []; sent = 7 ∷ [] }

abbrev locked : ThreadPool ℕ
locked = record one_sent { workers = receiving ∷ waiting ∷ []; lock = held }

abbrev busy : ThreadPool ℕ
busy = record fresh { workers = running 7 ∷ waiting ∷ []; sent = 7 ∷ []; received = 7 ∷ [] }

abbrev wounded : ThreadPool ℕ
wounded = record busy { workers = dead ∷ waiting ∷ []; crashed = 7 ∷ [] }

-- The second thread waits in `recv`: nothing can move.
abbrev resting : ThreadPool ℕ
resting = record wounded { workers = dead ∷ receiving ∷ []; lock = held }

one_sent-Reach : Reach even 2 one_sent
unfolding new execute
one_sent-Reach = later (start {p = fresh} refl) (send 7 refl refl)

locked-Reach : Reach even 2 locked
unfolding turn
locked-Reach = later one_sent-Reach (moves 0 refl)

busy-Reach : Reach even 2 busy
unfolding turn
busy-Reach = later locked-Reach (moves 0 refl)

wounded-Reach : Reach even 2 wounded
unfolding turn
wounded-Reach = later busy-Reach (moves 0 refl)

resting-Reach : Reach even 2 resting
unfolding turn
resting-Reach = later wounded-Reach (moves 1 refl)

resting_stuck : (i : ℕ) (q : ThreadPool ℕ) → turn even resting i ≢ some q
unfolding turn
resting_stuck zero q h = cc
resting_stuck (suc zero) q h = cc
resting_stuck (suc (suc i)) q h = cc

new_zero : new {Job = ℕ} 0 ≡ none
unfolding new
new_zero = refl

-- With every thread gone, sending panics.
dead_pool : execute (record resting { workers = dead ∷ dead ∷ [] }) 5 ≡ none
unfolding execute
dead_pool = refl

Reach-IsOrdered_example : IsOrdered even resting
Reach-IsOrdered_example = Reach-IsOrdered even 2 resting resting-Reach

execute_panics_iff_example : (execute resting 5 ≡ none) ↔ (length resting.crashed ≡ 2)
execute_panics_iff_example = execute_panics_iff even 2 resting 5 resting-Reach refl

rest_is_complete_example : Perm resting.sent (resting.returned ++ resting.crashed)
rest_is_complete_example =
    rest_is_complete even 2 resting resting-Reach refl (omega arith)
      (λ m. let (i, q, e) = m in resting_stuck i q e)

-- The pool is dropped with a job in the channel. One thread runs it, the other finds the channel
-- closed.
abbrev dropped : ThreadPool ℕ
dropped = record one_sent { sender = false }

abbrev ended : ThreadPool ℕ
ended = record resting { workers = dead ∷ dead ∷ []; lock = poisoned; sender = false }

dropped-Reach : Reach even 2 dropped
unfolding close
dropped-Reach = later one_sent-Reach (drops refl)

ended-Turns : Turns even dropped 5 ended
unfolding turn
ended-Turns =
    then_moves 1
      (then_moves 1 (then_moves 0 (then_moves 0 (then_moves 0 stays refl) refl) refl) refl) refl

drop_completes_example :
    (5 ≤ work even dropped)
    × (CanMove even ended ⊎ (HasShutDown even 2 ended ⊎ (length ended.crashed ≡ 2)))
drop_completes_example = drop_completes even 2 5 dropped ended dropped-Reach refl ended-Turns
