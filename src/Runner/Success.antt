-- ===== src/Runner/Success.antt =====
-- What a benchmark leaves behind where nothing fails: its files.
pub mod Steps
pub mod Alone
pub mod Files
pub mod Main
use benchmark_reverse_proxie.Common.{
  ℕ, ◌≡◌, refl, sym, ap, ◌∙◌, Bool, true, false, List, [], ◌∷◌, ◌++◌, append-nil, append_assoc,
  Option, none, subst, if◌then◌else◌,
}
use benchmark_reverse_proxie.Common.Bytes.{Bytes, bytes}
use benchmark_reverse_proxie.Common.Bytes.Utf8.{is_utf8}
use benchmark_reverse_proxie.Runner.System.{
  Op, sleep, current_dir, create_dir_all, create_file, write_all, output, spawn, wait, kill_child,
  send_sigterm, Os, ok, M, ◌>>=◌, pure, unwrap_some, Child, perform, command_output, command_spawn,
  wait_with_output, push, as_i32,
}
use benchmark_reverse_proxie.Runner.Servers.{
  Server, rust, nginx, multi_process, zig, into_string, spawn_server, kill_server,
}
use benchmark_reverse_proxie.Runner.Processes.{is_tool}
use benchmark_reverse_proxie.Runner.Bench.{
  oha_args, result_dir, write_file, run_curl, run_oha, wait_and_write_output, measure,
  bench_http_origin, bench_http_proxy,
}

-- What ends a process: a signal, or the shell command that `kill_server` gives for several
-- processes.
abbrev Tells : Op → ℕ → Type 0
Tells (kill_child p) pid = p ≡ pid
Tells (send_sigterm id) pid = id ≡ as_i32 pid
Tells (output program args) pid =
    (n : Bytes) × (program ≡ bytes "sh")
    × (args ≡ bytes "-c" ∷ (bytes "pgrep -f " ++ (n ++ bytes " | xargs -r kill")) ∷ [])
Tells _ pid = ⊥

-- The system does everything, and a process ends that has just been told to. Of no other process it
-- is said that it ends.
pub record IsReliable (os : Os) : Type 0 where
  pub does : (log : List Op) (op : Op) → os.fails log op ≡ false
  pub told :
      (log : List Op) (op : Op) (pid : ℕ) → Tells op pid → os.ends (log ++ op ∷ []) pid ≡ true

-- The path of the server's configuration is a text, if it has one.
abbrev pub Readable : Os → Server → Type 0
Readable os (nginx d) = is_utf8 (push (push os.cwd d) (bytes "nginx.conf")) ≡ true
Readable _ _ = Unit

abbrev pub File : Type 0
File = Bytes × Bytes

-- The contents that were written to files, in order.
abbrev pub written : List Op → List File
written [] = []
written (write_all path content ∷ ops) = (path, content) ∷ written ops
written (op ∷ ops) = written ops

written-append : (xs ys : List Op) → written (xs ++ ys) ≡ written xs ++ written ys
written-append [] ys = refl
written-append (write_all path content ∷ xs) ys =
    ap (λ l. (path, content) ∷ l) (written-append xs ys)
written-append (sleep n ∷ xs) ys = written-append xs ys
written-append (current_dir ∷ xs) ys = written-append xs ys
written-append (create_dir_all p ∷ xs) ys = written-append xs ys
written-append (create_file p ∷ xs) ys = written-append xs ys
written-append (output p a ∷ xs) ys = written-append xs ys
written-append (spawn d p a ∷ xs) ys = written-append xs ys
written-append (kill_child p ∷ xs) ys = written-append xs ys
written-append (send_sigterm p ∷ xs) ys = written-append xs ys
written-append (wait p ∷ xs) ys = written-append xs ys

-- A tool that measures, and the operations before it.
abbrev pub Ask : Type 0
Ask = List Op × Op

abbrev pub measuring : List Op → Op → List Ask
measuring log (output program args) =
    if is_tool program then (log, output program args) ∷ [] else []
measuring log _ = []

-- The tools that were asked for, in order.
abbrev pub asked : List Op → List Op → List Ask
asked log [] = []
asked log (op ∷ ops) = measuring log op ++ asked (log ++ op ∷ []) ops

asked-append : (log xs ys : List Op) → asked log (xs ++ ys) ≡ asked log xs ++ asked (log ++ xs) ys
asked-append log [] ys = ap (λ l. asked l ys) (sym (append-nil log))
asked-append log (op ∷ xs) ys =
    ap (λ l. measuring log op ++ l)
      (asked-append (log ++ op ∷ []) xs ys
        ∙ ap (λ l. asked (log ++ op ∷ []) xs ++ asked l ys) (append_assoc log (op ∷ []) xs))
    ∙ sym (append_assoc (measuring log op) (asked (log ++ op ∷ []) xs) _)

-- The action returns `a`, writes these files, and asks these tools.
pub record Runs {A : Type 0} (m : M A) (log : List Op) (a : A) (files : List File) (asks : List Ask)
    : Type 0 where
  pub new : List Op
  pub returns : m log ≡ (ok a, log ++ new)
  pub writes : written new ≡ files
  pub measures : asked log new ≡ asks

module _ (os : Os) (r : IsReliable os) where
  pub Runs-pure : {A : Type 0} (a : A) (log : List Op) → Runs (pure a) log a [] []
  unfolding pure
  Runs-pure a log = record {
    new = [];
    returns = ap (λ l. (ok a, l)) (sym (append-nil log));
    writes = refl;
    measures = refl;
  }

  pub Runs-bind :
      {A B : Type 0} (m : M A) (f : A → M B) (log : List Op) (a : A) (b : B) (fs gs : List File)
      (xs ys : List Ask)
      → Runs m log a fs xs
      → Runs (f a) (m log).1 b gs ys
      → Runs (m >>= f) log b (fs ++ gs) (xs ++ ys)
  unfolding ◌>>=◌
  Runs-bind m f log a b fs gs xs ys h k =
      let then' : asked (log ++ h.new) k.new ≡ ys =
        subst (λ l. asked l k.new ≡ ys) (ap (λ x. x.1) h.returns) k.measures in
      record {
        new = h.new ++ k.new;
        returns = rw (ap (λ x. x.0) h.returns) (
            k.returns
            ∙ ap (λ l. (ok b, l))
                (ap (λ x. x.1 ++ k.new) h.returns ∙ append_assoc log h.new k.new));
        writes = written-append h.new k.new ∙ (λ i. h.writes i ++ k.writes i);
        measures = asked-append log h.new k.new ∙ (λ i. h.measures i ++ then' i);
      }

  pub Runs-perform :
      (op : Op) (log : List Op)
      → Runs (perform os op) log tt (written (op ∷ [])) (asked log (op ∷ []))
  unfolding perform
  Runs-perform op log = record {
    new = op ∷ [];
    returns = rw (r.does log op);
    writes = refl;
    measures = refl;
  }

  pub Runs-command_output :
      (program : Bytes) (args : List Bytes) (log : List Op)
      → Runs
          (command_output os program args)
          log
          (os.printed log (output program args))
          []
          (asked log (output program args ∷ []))
  unfolding command_output perform pure ◌>>=◌
  Runs-command_output program args log = record {
    new = output program args ∷ [];
    returns = rw (r.does log (output program args));
    writes = refl;
    measures = refl;
  }

  pub Runs-command_spawn :
      (dir : Option Bytes) (program : Bytes) (args : List Bytes) (log : List Op)
      → Runs
          (command_spawn os dir program args)
          log
          (record { pid = os.new_pid log; piped = false })
          []
          []
  unfolding command_spawn perform pure ◌>>=◌
  Runs-command_spawn dir program args log = record {
    new = spawn dir program args ∷ [];
    returns = rw (r.does log (spawn dir program args));
    writes = refl;
    measures = refl;
  }

  -- A child whose output is no pipe gives nothing to read.
  pub Runs-wait_with_output :
      (child : Child) (log : List Op)
      → child.piped ≡ false
      → os.ends log child.pid ≡ true
      → Runs (wait_with_output os child) log [] [] []
  unfolding wait_with_output perform pure ◌>>=◌
  Runs-wait_with_output child log inherited over = record {
    new = wait child.pid ∷ [];
    returns = rw (over, r.does log (wait child.pid), inherited);
    writes = refl;
    measures = refl;
  }

  pub Runs-write_file :
      (path content : Bytes) (log : List Op)
      → Runs (write_file os path content) log tt ((path, content) ∷ []) []
  unfolding write_file
  Runs-write_file path content log =
      Runs-bind (perform os (create_file path)) _ log tt tt [] ((path, content) ∷ []) [] []
        (Runs-perform (create_file path) log) (Runs-perform (write_all path content) _)
