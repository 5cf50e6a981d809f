-- ===== src/Runner/Powersave.antt =====
-- src/main.rs: actions that do not ask for the CPU to be put back into its normal setting.
pub mod Main
use benchmark_reverse_proxie.Common.{
  ◌≡◌, ◌≢◌, ◌⊎◌, refl, sym, ap, ◌∙◌, Bool, false, List, [], ◌∷◌, ◌++◌, append-nil, append_assoc,
  Option, none, some, All, All-append, Bool-cases, inl, inr, subst,
}
use benchmark_reverse_proxie.Common.Bytes.{Bytes, bytes}
use benchmark_reverse_proxie.Http.{eq_bytes}
use benchmark_reverse_proxie.Runner.System.{
  Op, output, spawn, wait, Os, Result, ok, err, panicked, blocked, M, ◌>>=◌, pure, unwrap,
  unwrap_some, Child, perform, command_output, command_spawn, wait_with_output,
}
use benchmark_reverse_proxie.Runner.Servers.{Server, rust, nginx, spawn_server, kill_server}
use benchmark_reverse_proxie.Runner.Bench.{
  cpu_power, write_file, run_curl, run_oha, wait_and_write_output, measure, bench_http_origin,
  bench_http_proxy, bench_origins, bench_proxies, benchmarks, main,
}

is_powersave_command : List Bytes → Bool
unfolding eq_bytes
is_powersave_command (a ∷ cmd ∷ rest) = eq_bytes cmd (bytes "./cpu_power.sh powersave")
is_powersave_command _ = false

-- The operation by which the runner puts the CPU back into its normal setting.
unfoldable pub is_powersave : Op → Bool
unfolding is_powersave_command
is_powersave (output program args) = is_powersave_command args
is_powersave _ = false

module _ (os : Os) where
  -- The action adds to the log, and asks for no powersave.
  pub record Leaves {A : Type 0} (m : M A) : Type 0 where
    pub at :
        (log : List Op)
        → (new : List Op) × ((m log).1 ≡ log ++ new) × All (λ op. is_powersave op ≡ false) new

  pub Leaves-pure : {A : Type 0} (a : A) → Leaves (pure a)
  unfolding pure
  Leaves-pure a = record { at = λ log. ([], sym (append-nil log), tt) }

  pub Leaves-unwrap_some : {A : Type 0} (o : Option A) → Leaves (unwrap_some o)
  unfolding unwrap_some
  Leaves-unwrap_some none = record { at = λ log. ([], sym (append-nil log), tt) }
  Leaves-unwrap_some (some a) = record { at = λ log. ([], sym (append-nil log), tt) }

  pub Leaves-unwrap : {A : Type 0} (m : M A) → Leaves m → Leaves (unwrap m)
  unfolding unwrap
  Leaves-unwrap m h = record { at = h.at }

  pub Leaves-perform : (op : Op) → is_powersave op ≡ false → Leaves (perform os op)
  unfolding perform
  Leaves-perform op h = record { at = λ log. (op ∷ [], refl, (h, tt)) }

  bind_at :
      {A B : Type 0} (f : A → M B)
      → ((a : A) → Leaves (f a))
      → (r : Result A) (log log' xs : List Op) → log' ≡ log ++ xs
      → All (λ op. is_powersave op ≡ false) xs
      → (new : List Op) × ((((λ (l : List Op). (r, log')) >>= f) log).1 ≡ log ++ new)
        × All (λ op. is_powersave op ≡ false) new
  unfolding ◌>>=◌
  bind_at f s (ok a) log log' xs e h =
      let (ys, grown, k) = (s a).at log' in
      (xs ++ ys, grown ∙ ap (λ l. l ++ ys) e ∙ append_assoc log xs ys, All-append _ xs ys h k)
  bind_at f s err log log' xs e h = (xs, e, h)
  bind_at f s panicked log log' xs e h = (xs, e, h)
  bind_at f s blocked log log' xs e h = (xs, e, h)

  pub Leaves-bind :
      {A B : Type 0} (m : M A) (f : A → M B)
      → Leaves m
      → ((a : A) → Leaves (f a))
      → Leaves (m >>= f)
  unfolding ◌>>=◌
  Leaves-bind m f h s = record {
    at = λ log. let (xs, e, k) = h.at log in bind_at f s (m log).0 log (m log).1 xs e k;
  }

  pub Leaves-command_output :
      (program : Bytes) (args : List Bytes)
      → is_powersave (output program args) ≡ false
      → Leaves (command_output os program args)
  unfolding command_output
  Leaves-command_output program args h = record {
    at = λ log.
        (Leaves-bind (perform os (output program args)) _ (Leaves-perform (output program args) h)
            (λ a. Leaves-pure (os.printed log (output program args)))).at
          log;
  }

  pub Leaves-command_spawn :
      (dir : Option Bytes) (program : Bytes) (args : List Bytes)
      → Leaves (command_spawn os dir program args)
  unfolding command_spawn is_powersave
  Leaves-command_spawn dir program args = record {
    at = λ log.
        (Leaves-bind (perform os (spawn dir program args)) _
            (Leaves-perform (spawn dir program args) refl)
            (λ a. Leaves-pure (record { pid = os.new_pid log; piped = false }))).at
          log;
  }

  pub Leaves-wait_with_output : (child : Child) → Leaves (wait_with_output os child)
  unfolding wait_with_output is_powersave
  Leaves-wait_with_output child = record {
    at = λ log. elim (Bool-cases (os.ends log child.pid)) [
      | inl there ↦ rw there (
          (Leaves-bind (perform os (wait child.pid)) _ (Leaves-perform (wait child.pid) refl)
              (λ a. Leaves-pure _)).at
            log)
      | inr never ↦ rw never (wait child.pid ∷ [], refl, (refl, tt))
    ];
  }

  pub ruleset leaves_rules = (
    Leaves-pure, Leaves-unwrap_some, Leaves-unwrap, Leaves-perform, Leaves-bind,
    Leaves-command_output, Leaves-command_spawn, Leaves-wait_with_output, refl,
  )
