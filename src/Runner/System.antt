-- ===== src/Runner/System.antt =====
-- The operations of the system that src/main.rs and build.rs use, with what `std` makes of them.
use benchmark_reverse_proxie.Common.{
  ℕ, ◌-◌, ◌^◌, Bool, true, false, List, [], ◌∷◌, ◌++◌, Option, ltb, ◌==◌, if◌then◌else◌,
}
use benchmark_reverse_proxie.Common.Bytes.{Bytes, bytes}
pub use benchmark_reverse_proxie.Common.Logged.{Result, ok, err, panicked, blocked, Logged}
unfoldable pub use benchmark_reverse_proxie.Common.Logged.{
  ◌>>=◌, ◌>>◌, pure, unwrap, no_error, unwrap_some,
}

-- `i32`
pub data Int32 : Type 0 where
  nonneg : ℕ → Int32
  neg : ℕ → Int32

-- `id as i32`, for a `u32`.
abbrev pub as_i32 : ℕ → Int32
as_i32 id = if ltb id (2 ^ 31) then nonneg id else neg (2 ^ 32 - id)

pub data Op : Type 0 where
  sleep : (secs : ℕ) → Op
  current_dir : Op
  create_dir_all : (path : Bytes) → Op
  create_file : (path : Bytes) → Op
  write_all : (path content : Bytes) → Op
  output : (program : Bytes) (args : List Bytes) → Op
  spawn : (dir : Option Bytes) (program : Bytes) (args : List Bytes) → Op
  kill_child : (pid : ℕ) → Op
  send_sigterm : (pid : Int32) → Op
  wait : (pid : ℕ) → Op

-- What the system answers, after what was asked before: whether an operation fails, the id of a new
-- process, what a program wrote to a pipe, the current directory, and whether a process ends that is
-- waited for.
pub record Os : Type 0 where
  pub fails : List Op → Op → Bool
  pub new_pid : List Op → ℕ
  pub printed : List Op → Op → Bytes
  pub cwd : Bytes
  pub ends : List Op → ℕ → Bool

-- What an action gives, and the log after it.
abbrev pub M : Type 0 → Type 0
M A = Logged Op A

-- `std::process::Child`: `spawn` lets the child inherit the standard output unless the command says
-- otherwise, and there is a pipe only if it says so.
pub record Child : Type 0 where
  pub pid : ℕ
  pub piped : Bool

module _ (os : Os) where
  unfoldable pub perform : Op → M Unit
  perform op log = (if os.fails log op then err else ok tt, log ++ op ∷ [])

  -- `Command::output`, which makes a pipe: what the program wrote to its standard output.
  unfoldable pub command_output : Bytes → List Bytes → M Bytes
  command_output program args log =
      (perform (output program args) >> pure (os.printed log (output program args))) log

  -- `Command::spawn`
  unfoldable pub command_spawn : Option Bytes → Bytes → List Bytes → M Child
  command_spawn dir program args log =
      (perform (spawn dir program args) >> pure (record { pid = os.new_pid log; piped = false }))
        log

  -- `Child::wait`: it does not come back from a process that does not end.
  unfoldable pub wait_child : Child → M Unit
  wait_child child log =
      if os.ends log child.pid
      then perform (wait child.pid) log
      else (blocked, log ++ wait child.pid ∷ [])

  -- `Child::wait_with_output`: the output's `stdout`. It does not come back from a process that does
  -- not end.
  unfoldable pub wait_with_output : Child → M Bytes
  wait_with_output child log =
      if os.ends log child.pid
      then (perform (wait child.pid)
            >> pure (if child.piped then os.printed log (wait child.pid) else []))
          log
      else (blocked, log ++ wait child.pid ∷ [])

is_slash : Bytes → Bool
is_slash [] = false
is_slash (c ∷ cs) = c == b'/'

ends_open : Bytes → Bool
ends_open [] = false
ends_open (c ∷ []) = if c == b'/' then false else true
ends_open (c ∷ d ∷ cs) = ends_open (d ∷ cs)

-- `PathBuf::push`: an absolute path replaces the buffer, and a separator is put in between where the
-- buffer is not empty and does not end in one.
unfoldable pub push : Bytes → Bytes → Bytes
unfolding is_slash ends_open
push path part =
    if is_slash part
    then part
    else if ends_open path
    then path ++ (bytes "/" ++ part)
    else path ++ part
