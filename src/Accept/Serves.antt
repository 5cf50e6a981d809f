-- ===== src/Accept/Serves.antt =====
-- Until when the accept loops serve.
use benchmark_reverse_proxie.Common.{
  ◌≡◌, refl, Bool, true, List, [], ◌∷◌, ◌++◌, map, Option, none, some,
}
use benchmark_reverse_proxie.Common.Bytes.{Bytes, bytes}
use benchmark_reverse_proxie.Accept.{
  Ending, accepting, returned_err, Run, accept_loop, serve, tokio_main, origin_hyper_main,
  proxy_hyper_main,
}

module _ {Stream : Type 0} where
  accept_loop-failed :
      (streams : List Stream) (later : List (Option Stream))
      → accept_loop (map some streams ++ none ∷ later) ≡ (streams, returned_err)
  unfolding accept_loop
  accept_loop-failed [] later = refl
  accept_loop-failed (s ∷ streams) later = rw (accept_loop-failed streams later)

  accept_loop-accepting :
      (streams : List Stream) → accept_loop (map some streams) ≡ (streams, accepting)
  unfolding accept_loop
  accept_loop-accepting [] = refl
  accept_loop-accepting (s ∷ streams) = rw (accept_loop-accepting streams)

  abbrev serving : Bytes → List Stream → Ending → Run Stream
  serving addr streams ending = record { listening = some addr; spawned = streams; ending = ending }

  -- The server listens at the address; it gives each connection a task, in order, up to the first
  -- `accept` that fails, returns its error then, and else goes on accepting.
  abbrev pub ServesUntilError :
      ((Bytes → Bool) → List (Option Stream) → Run Stream) → Bytes → Type 0
  ServesUntilError server addr =
      (bind : Bytes → Bool) (streams : List Stream) (later : List (Option Stream))
      → bind addr ≡ true
      → (server bind (map some streams ++ none ∷ later) ≡ serving addr streams returned_err)
        × (server bind (map some streams) ≡ serving addr streams accepting)

  -- Where the address can be bound, origin-tokio at its first argument after the name of the
  -- program, or at port 3000 of the loopback if it has none, and origin-hyper and proxy-hyper at
  -- ports 3000 and 3001 of every interface, give each connection a task, in order, up to the first
  -- `accept` that fails; this one ends the server with its error.
  pub mains-ServesUntilError :
      (program addr : Bytes) (more : List Bytes)
      → ServesUntilError (tokio_main (program ∷ addr ∷ more)) addr
        × ServesUntilError (tokio_main (program ∷ [])) (bytes "127.0.0.1:3000")
        × ServesUntilError (tokio_main []) (bytes "127.0.0.1:3000")
        × ServesUntilError origin_hyper_main (bytes "0.0.0.0:3000")
        × ServesUntilError proxy_hyper_main (bytes "0.0.0.0:3001")
  unfolding tokio_main origin_hyper_main proxy_hyper_main
  mains-ServesUntilError program addr more =
      let lem : (at : Bytes) → ServesUntilError (serve at) at = λ at bind streams later bound. (
        rw (bound, accept_loop-failed streams later) refl,
        rw (bound, accept_loop-accepting streams) refl,
      ) in
      (
        lem addr,
        lem (bytes "127.0.0.1:3000"),
        lem (bytes "127.0.0.1:3000"),
        lem (bytes "0.0.0.0:3000"),
        lem (bytes "0.0.0.0:3001"),
      )
