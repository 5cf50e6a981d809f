-- ===== src/Accept/Tests.antt =====
-- Three connections, the second of which cannot be accepted.
use benchmark_reverse_proxie.Common.{ℕ, ◌≡◌, refl, true, [], ◌∷◌, none, some}
use benchmark_reverse_proxie.Common.Bytes.{bytes}
use benchmark_reverse_proxie.Accept.{
  returned_err, tokio_main, origin_hyper_main, proxy_hyper_main, accept_loop,
}
use benchmark_reverse_proxie.Accept.Serves.{ServesUntilError, mains-ServesUntilError}

first_only :
    tokio_main {Stream = ℕ} [] (λ addr. true) (some 7 ∷ none ∷ some 9 ∷ [])
    ≡ record { listening = some (bytes "127.0.0.1:3000"); spawned = 7 ∷ []; ending = returned_err }
unfolding tokio_main accept_loop
first_only = refl

mains-ServesUntilError_example :
    ServesUntilError {Stream = ℕ}
      (tokio_main (bytes "tokio" ∷ bytes "0.0.0.0:80" ∷ []))
      (bytes "0.0.0.0:80")
    × ServesUntilError {Stream = ℕ} (tokio_main (bytes "tokio" ∷ [])) (bytes "127.0.0.1:3000")
    × ServesUntilError {Stream = ℕ} (tokio_main []) (bytes "127.0.0.1:3000")
    × ServesUntilError {Stream = ℕ} origin_hyper_main (bytes "0.0.0.0:3000")
    × ServesUntilError {Stream = ℕ} proxy_hyper_main (bytes "0.0.0.0:3001")
mains-ServesUntilError_example = mains-ServesUntilError (bytes "tokio") (bytes "0.0.0.0:80") []
