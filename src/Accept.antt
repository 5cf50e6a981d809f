-- ===== src/Accept.antt =====
-- The `main` functions of origin-tokio, origin-hyper and proxy-hyper, in the src/main.rs of each:
-- the loop that accepts connections, and hands each to a task of its own.
pub mod Serves
mod Tests
use benchmark_reverse_proxie.Common.{
  Bool, true, false, List, [], ◌∷◌, Option, none, some, if◌then◌else◌, get_elem?,
}
use benchmark_reverse_proxie.Common.Bytes.{Bytes, bytes}

-- `main` waits in `accept`, or has returned an error.
pub data Ending : Type 0 where
  accepting returned_err : Ending

-- The address that is listened on, if `bind` succeeded, and the connections that got a task, in
-- order.
pub record Run (Stream : Type 0) : Type 0 where
  pub listening : Option Bytes
  pub spawned : List Stream
  pub ending : Ending

-- `env::args().nth(1)`, or the default.
abbrev pub address : List Bytes → Bytes
address args = elim (get_elem? args 1) [ none ↦ bytes "127.0.0.1:3000" | some addr ↦ addr ]

module _ {Stream : Type 0} where
  -- The loop, over what `accept` gives: a connection, or an error.
  unfoldable pub accept_loop : List (Option Stream) → List Stream × Ending
  accept_loop [] = ([], accepting)
  accept_loop (none ∷ later) = ([], returned_err)
  accept_loop (some stream ∷ later) = (stream ∷ (accept_loop later).0, (accept_loop later).1)

  -- `TcpListener::bind(addr).await?` and the loop.
  abbrev pub serve : Bytes → (Bytes → Bool) → List (Option Stream) → Run Stream
  serve addr bind accepts =
      if bind addr
      then record {
        listening = some addr;
        spawned = (accept_loop accepts).0;
        ending = (accept_loop accepts).1;
      }
      else record { listening = none; spawned = []; ending = returned_err }

  unfoldable pub tokio_main :
      (args : List Bytes) → (Bytes → Bool) → List (Option Stream) → Run Stream
  tokio_main args = serve (address args)

  unfoldable pub origin_hyper_main : (Bytes → Bool) → List (Option Stream) → Run Stream
  origin_hyper_main = serve (bytes "0.0.0.0:3000")

  unfoldable pub proxy_hyper_main : (Bytes → Bool) → List (Option Stream) → Run Stream
  proxy_hyper_main = serve (bytes "0.0.0.0:3001")
