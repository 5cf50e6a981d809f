-- ===== src/Runner/Processes.antt =====
-- src/main.rs: which processes run, read off the log, and what may be asked while they do.
pub mod Keeps
pub mod Benches
pub mod Main
use benchmark_reverse_proxie.Common.{
  ℕ, ◌≡◌, Bool, true, false, ◌||◌, List, [], ◌∷◌, ◌++◌, map, Option, none, some, if◌then◌else◌,
  ◌==◌, get_elem?, length, ◌≤◌,
}
use benchmark_reverse_proxie.Common.Bytes.{Bytes, bytes}
use benchmark_reverse_proxie.Http.{eq_bytes}
use benchmark_reverse_proxie.Runner.System.{
  Int32, nonneg, neg, as_i32, Op, output, spawn, kill_child, send_sigterm, wait, Os, Child, push,
}
use benchmark_reverse_proxie.Runner.Monitor.{state}
use benchmark_reverse_proxie.Runner.Servers.{Server, rust, nginx, multi_process, zig, release_path}

-- A process that was started and not waited for; `ended` if a signal to end was sent to it.
pub record Process : Type 0 where
  pub pid : ℕ
  pub program : Bytes
  pub args : List Bytes
  pub ended : Bool

abbrev pub end : Process → Process
end p = record p { ended = true }

abbrev pub eq_int32 : Int32 → Int32 → Bool
eq_int32 (nonneg a) (nonneg b) = a == b
eq_int32 (neg a) (neg b) = a == b
eq_int32 (nonneg a) (neg b) = false
eq_int32 (neg a) (nonneg b) = false

abbrev pub end_first : (Process → Bool) → List Process → List Process
end_first test [] = []
end_first test (p ∷ ps) = if test p then end p ∷ ps else p ∷ end_first test ps

abbrev pub remove_first : ℕ → List Process → List Process
remove_first pid [] = []
remove_first pid (p ∷ ps) = if p.pid == pid then ps else p ∷ remove_first pid ps

-- A shell may end any of them.
abbrev performed : Os → List Op → List Process → Op → List Process
performed os log ps (spawn dir program args) =
    record { pid = os.new_pid log; program = program; args = args; ended = false } ∷ ps
performed os log ps (kill_child pid) = end_first (λ p. p.pid == pid) ps
performed os log ps (send_sigterm id) = end_first (λ p. eq_int32 (as_i32 p.pid) id) ps
performed os log ps (wait pid) = remove_first pid ps
performed os log ps (output program args) = if eq_bytes program (bytes "sh") then map end ps else ps
performed os log ps _ = ps

-- An operation that fails does nothing.
abbrev pub after : Os → List Op → List Process → Op → List Process
after os log ps op = if os.fails log op then ps else performed os log ps op

-- The processes that run after some operations.
abbrev pub running : Os → List Op → List Process
running os ops = state (after os) [] [] ops

abbrev last : Bytes → List Bytes → Bytes
last arg [] = arg
last arg (next ∷ args) = last next args

-- What a server is started as.
abbrev pub command : Os → Server → Bytes × List Bytes
command os (rust n) = (release_path n, [])
command os (nginx config_dir) = (
  bytes "/usr/sbin/nginx",
  bytes "-c"
      ∷ push (push os.cwd config_dir) (bytes "nginx.conf")
      ∷ bytes "-g"
      ∷ bytes "daemon off;"
      ∷ [],
)
command os (multi_process n) = (release_path n, [])
command os (zig n) = (
  bytes "sh",
  bytes "-c" ∷ (push (push n (bytes "zig-out/bin")) n ++ bytes " >/dev/null 2>&1") ∷ [],
)

abbrev pub started : Os → Server → Child → Process
started os server child = record {
  pid = child.pid;
  program = (command os server).0;
  args = (command os server).1;
  ended = false;
}

abbrev pub Contains : {A : Type 0} → List A → A → Type 0
Contains xs x = (i : ℕ) × (get_elem? xs i ≡ some x)

-- The server runs as this process, and nothing was done to end it.
pub record IsUp (os : Os) (server : Server) (p : Process) : Type 0 where
  pub program : p.program ≡ (command os server).0
  pub args : p.args ≡ (command os server).1
  pub unended : p.ended ≡ false

abbrev pub is_tool : Bytes → Bool
is_tool program = eq_bytes program (bytes "curl") || eq_bytes program (bytes "oha")

abbrev pub Needs : Bool → Type 0 → Type 0
Needs true P = P
Needs false P = Unit

module _ (os : Os) (origins proxies : List Server) (behind : Server) where
  -- One of the origin servers alone is up, at port 3000, or one of the proxies before the origin
  -- server `behind`, at port 3001.
  pub data Measured (ps : List Process) (url : Bytes) : Type 0 where
    origin :
        (server : Server) (p : Process)
        → ps ≡ p ∷ []
        → Contains origins server
        → IsUp os server p
        → url ≡ bytes "http://localhost:3000"
        → Measured ps url
    proxy :
        (server : Server) (p q : Process)
        → ps ≡ p ∷ q ∷ []
        → Contains proxies server
        → IsUp os server p
        → IsUp os behind q
        → url ≡ bytes "http://localhost:3001"
        → Measured ps url

  -- The tools measure what is up, by their last argument; only processes that run are ended or
  -- waited for, and no more than two run at once.
  abbrev pub Allowed : List Process → Op → Type 0
  Allowed ps (output program args) = Needs (is_tool program) (Measured ps (last [] args))
  Allowed ps (kill_child pid) = (p : Process) × Contains ps p × (p.pid ≡ pid)
  Allowed ps (send_sigterm id) = (p : Process) × Contains ps p × (as_i32 p.pid ≡ id)
  Allowed ps (wait pid) = (p : Process) × Contains ps p × (p.pid ≡ pid)
  Allowed ps (spawn dir program args) = length ps ≤ 1
  Allowed ps _ = Unit
