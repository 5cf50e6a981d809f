-- ===== src/Runner/Processes/Keeps.antt =====
-- src/main.rs: how each action changes which processes run.
use benchmark_reverse_proxie.Common.{
  ℕ, ◌≡◌, refl, sym, ap, append-nil, Bool, true, false, List, [], ◌∷◌, map, none, ◌==◌, ==_iff,
  length, ◌≤◌, Bool-cases, inl, inr,
}
use benchmark_reverse_proxie.Common.Bytes.{Bytes}
use benchmark_reverse_proxie.Common.Bytes.Utf8.{is_utf8}
use benchmark_reverse_proxie.Http.{eq_bytes}
use benchmark_reverse_proxie.Runner.System.{
  Int32, nonneg, neg, as_i32, Op, sleep, current_dir, create_dir_all, create_file, write_all, spawn,
  kill_child, send_sigterm, wait, Os, Child, M, ◌>>=◌, pure, unwrap_some, perform, command_spawn,
  wait_with_output,
}
use benchmark_reverse_proxie.Runner.Servers.{
  Server, rust, nginx, multi_process, zig, into_string, spawn_server, kill_server,
}
use benchmark_reverse_proxie.Runner.Bench.{
  cpu_power, write_file, run_curl, run_oha, wait_and_write_output, measure,
}
use benchmark_reverse_proxie.Runner.Monitor.{
  Keeps, Keeps-pure, Keeps-bind, Keeps-perform, Keeps-command_output,
}
use benchmark_reverse_proxie.Runner.Processes.{
  Process, end, eq_int32, after, started, Measured, Allowed,
}

same_number : (n : ℕ) → (n == n) ≡ true
same_number n = (==_iff n n).1 refl

same_int32 : (i : Int32) → eq_int32 i i ≡ true
same_int32 (nonneg n) = same_number n
same_int32 (neg n) = same_number n

-- What ending a server does to the processes below it: a shell may end them all.
abbrev pub touched : Server → List Process → List Process
touched (multi_process n) ps = map end ps
touched (rust n) ps = ps
touched (nginx config_dir) ps = ps
touched (zig n) ps = ps

module _ (os : Os) (origins proxies : List Server) (behind : Server) where
  -- From the processes `ps` to those that are left after the action.
  abbrev pub Leads : {A : Type 0} → List Process → (A → List Process) → M A → Type 0
  Leads ps qs action = Keeps (after os) (Allowed os origins proxies behind) ps qs action

  pub Leads-then :
      {A B : Type 0} (ps qs rs : List Process) (action : M A) (f : A → M B)
      → Leads ps (λ a. qs) action
      → ((a : A) → Leads qs (λ b. rs) (f a))
      → Leads ps (λ b. rs) (action >>= f)
  Leads-then ps qs rs =
      Keeps-bind (after os) (Allowed os origins proxies behind) ps (λ a. qs) (λ b. rs)

  module _ (ps : List Process) where
    -- What changes no process.
    abbrev pub Stays : {A : Type 0} → M A → Type 0
    Stays action = Leads ps (λ a. ps) action

    pub Stays-then :
        {A B : Type 0} (action : M A) (f : A → M B)
        → Stays action
        → ((a : A) → Stays (f a))
        → Stays (action >>= f)
    Stays-then = Leads-then ps ps ps

    Stays-perform :
        (op : Op)
        → Allowed os origins proxies behind ps op
        → ((log : List Op) → os.fails log op ≡ false → after os log ps op ≡ ps)
        → Stays (perform os op)
    Stays-perform = Keeps-perform (after os) (Allowed os origins proxies behind) os ps ps

    pub Stays-sleep : (secs : ℕ) → Stays (perform os (sleep secs))
    Stays-sleep secs = Stays-perform (sleep secs) tt (λ log good. rw good refl)

    pub Stays-create_dir_all : (path : Bytes) → Stays (perform os (create_dir_all path))
    Stays-create_dir_all path = Stays-perform (create_dir_all path) tt (λ log good. rw good refl)

    Stays-current_dir : Stays (perform os current_dir)
    Stays-current_dir = Stays-perform current_dir tt (λ log good. rw good refl)

    Stays-write_file : (path content : Bytes) → Stays (write_file os path content)
    unfolding write_file
    Stays-write_file path content =
        Stays-then _ _ (Stays-perform (create_file path) tt (λ log good. rw good refl))
          (λ a. Stays-perform (write_all path content) tt (λ log good. rw good refl))

    module _ (url : Bytes) (up : Measured os origins proxies behind ps url) where
      Stays-run_curl : (dir : Bytes) → Stays (run_curl os url dir)
      unfolding run_curl eq_bytes
      Stays-run_curl dir =
          Stays-then _ _
            (Keeps-command_output (after os) (Allowed os origins proxies behind) os ps ps _ _ up
              (λ log good. rw good refl))
            (λ a. Stays-write_file _ a)

      Stays-run_oha : (dir : Bytes) (keepalive : Bool) → Stays (run_oha os url dir keepalive)
      unfolding run_oha eq_bytes
      Stays-run_oha dir true =
          Stays-then _ _
            (Keeps-command_output (after os) (Allowed os origins proxies behind) os ps ps _ _ up
              (λ log good. rw good refl))
            (λ a. Stays-write_file _ a)
      Stays-run_oha dir false =
          Stays-then _ _
            (Keeps-command_output (after os) (Allowed os origins proxies behind) os ps ps _ _ up
              (λ log good. rw good refl))
            (λ a. Stays-write_file _ a)

      pub Stays-measure : (dir : Bytes) → Stays (measure os url dir)
      unfolding measure
      Stays-measure dir = Stays-then _ _ (Stays-sleep 2) λ a.
          Stays-then _ _ (Stays-run_curl dir) λ b. Stays-then _ _ (Stays-sleep 1) λ c.
            Stays-then _ _ (Stays-run_oha dir false)
              λ d. Stays-then _ _ (Stays-sleep 1) λ e. Stays-run_oha dir true

    pub Leads-command_spawn :
        (program : Bytes) (args : List Bytes)
        → length ps ≤ 1
        → Leads ps
            (λ child.
              record { pid = child.pid; program = program; args = args; ended = false } ∷ ps)
            (command_spawn os none program args)
    unfolding command_spawn perform pure ◌>>=◌
    Leads-command_spawn program args few = record {
      at = λ log. elim (Bool-cases (os.fails log (spawn none program args))) [
        | inl bad ↦ rw bad (spawn none program args ∷ [], refl, (few, tt), tt)
        | inr good ↦ rw good (spawn none program args ∷ [], refl, (few, tt), rw good refl)
      ];
    }

    Leads-unwrap-spawn :
        (path : Bytes) (g : Bytes → M Child) (q : Child → Process)
        → Leads ps (λ child. q child ∷ ps) (g path)
        → Leads ps (λ child. q child ∷ ps) (unwrap_some (into_string path) >>= g)
    unfolding unwrap_some ◌>>=◌
    Leads-unwrap-spawn path g q h = elim (Bool-cases (is_utf8 path)) [
      | inl readable ↦ rw readable h
      | inr unreadable ↦ record { at = λ log. rw unreadable ([], sym (append-nil log), tt, tt) }
    ]

    pub Leads-spawn_server :
        (server : Server)
        → length ps ≤ 1
        → Leads ps (λ child. started os server child ∷ ps) (spawn_server os server)
    unfolding spawn_server
    Leads-spawn_server (rust n) few = Leads-command_spawn _ _ few
    Leads-spawn_server (multi_process n) few = Leads-command_spawn _ _ few
    Leads-spawn_server (zig n) few = Leads-command_spawn _ _ few
    Leads-spawn_server (nginx config_dir) few =
        Keeps-bind (after os) (Allowed os origins proxies behind) ps (λ a. ps)
          (λ child. started os (nginx config_dir) child ∷ ps) _ _ Stays-current_dir
          (λ a. Leads-unwrap-spawn _ _ _ (Leads-command_spawn _ _ few))

    module _ (p : Process) (proc : Child) (same : p.pid ≡ proc.pid) where
      ends :
          (op : Op) (rest : List Process)
          → Allowed os origins proxies behind (p ∷ ps) op
          → ((log : List Op) → os.fails log op ≡ false → after os log (p ∷ ps) op ≡ rest)
          → Leads (p ∷ ps) (λ a. rest) (perform os op)
      ends op rest =
          Keeps-perform (after os) (Allowed os origins proxies behind) os (p ∷ ps) rest op

      Leads-kill_child : Leads (p ∷ ps) (λ a. end p ∷ ps) (perform os (kill_child proc.pid))
      Leads-kill_child =
          ends (kill_child proc.pid) (end p ∷ ps) (p, (0, refl), same)
            (λ log good. rw (good, same, same_number proc.pid))

      pub Leads-kill_server :
          (server : Server)
          → Leads (p ∷ ps) (λ a. end p ∷ touched server ps) (kill_server os server proc)
      unfolding kill_server eq_bytes
      Leads-kill_server (rust n) = Leads-kill_child
      Leads-kill_server (zig n) = Leads-kill_child
      Leads-kill_server (nginx config_dir) =
          ends (send_sigterm (as_i32 proc.pid)) (end p ∷ ps) (p, (0, refl), ap as_i32 same)
            (λ log good. rw (good, same, same_int32 (as_i32 proc.pid)))
      Leads-kill_server (multi_process n) =
          Leads-then (p ∷ ps) (end p ∷ map end ps) (end p ∷ map end ps) _ _
            (Keeps-command_output (after os) (Allowed os origins proxies behind) os (p ∷ ps)
              (end p ∷ map end ps) _ _ tt (λ log good. rw good refl))
            (λ a.
              Keeps-pure (after os) (Allowed os origins proxies behind) (end p ∷ map end ps) _ tt
                refl)

      Leads-wait_with_output : Leads (p ∷ ps) (λ a. ps) (wait_with_output os proc)
      unfolding wait_with_output
      Leads-wait_with_output = record {
        at = λ log. elim (Bool-cases (os.ends log proc.pid)) [
          | inr never ↦ rw never (wait proc.pid ∷ [], refl, ((p, (0, refl), same), tt), tt)
          | inl there ↦ rw there (
              (Leads-then (p ∷ ps) ps ps (perform os (wait proc.pid)) _
                  (ends (wait proc.pid) ps (p, (0, refl), same)
                    (λ log' good. rw (good, same, same_number proc.pid)))
                  (λ a.
                    Keeps-pure (after os) (Allowed os origins proxies behind) ps (λ b. ps) _
                      refl)).at
                log)
        ];
      }

      pub Leads-wait_and_write_output :
          (dir filename : Bytes)
          → Leads (p ∷ ps) (λ a. ps) (wait_and_write_output os proc dir filename)
      unfolding wait_and_write_output
      Leads-wait_and_write_output dir filename =
          Leads-then (p ∷ ps) ps ps _ _ Leads-wait_with_output (λ a. Stays-write_file _ a)

  pub Stays-cpu_power : (mode : Bytes) → Leads [] (λ a. []) (cpu_power os mode)
  unfolding cpu_power eq_bytes
  Stays-cpu_power mode =
      Leads-then [] [] [] _ _
        (Keeps-command_output (after os) (Allowed os origins proxies behind) os [] [] _ _ tt
          (λ log good. rw good refl))
        (λ a. Keeps-pure (after os) (Allowed os origins proxies behind) [] _ tt refl)
