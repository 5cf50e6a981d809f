-- ===== src/Startup/Tests.antt =====
-- Startups where all goes well, and where the address is taken.
use benchmark_reverse_proxie.Common.{ℕ, ◌≡◌, refl, Bool, true, false, List, [], ◌∷◌}
use benchmark_reverse_proxie.Common.Bytes.{Bytes, bytes}
use benchmark_reverse_proxie.Common.Bytes.Decimal.{decimal}
use benchmark_reverse_proxie.Common.Logged.{err, ◌>>=◌, unwrap}
use benchmark_reverse_proxie.Startup.{
  Call, init_logger, listen_on, origin_actix_main, origin_ntex_main, origin_pingora_main,
  origin_heph_main, proxy_pingora_main, proxy_actix_main, perform,
}
use benchmark_reverse_proxie.Startup.Launches.{
  IsLaunched, has_run, forward_urls, mains-IsLaunched, proxy_actix_main-IsLaunched,
}

abbrev never : Call → Bool
never call = false

abbrev address_in_use : Call → Bool
address_in_use (listen_on address) = true
address_in_use _ = false

abbrev loopback : Bytes → ℕ → List Bytes
loopback host port = bytes "127.0.0.1:3000" ∷ []

origin_actix_address_in_use :
    origin_actix_main address_in_use []
    ≡ (err, init_logger ∷ listen_on (bytes "127.0.0.1:3000") ∷ [])
unfolding origin_actix_main perform unwrap ◌>>=◌ decimal
origin_actix_address_in_use = refl

mains-IsLaunched_example :
    IsLaunched never (origin_actix_main never) (bytes "127.0.0.1:3000")
    × IsLaunched never (origin_ntex_main never) (bytes "127.0.0.1:3000")
    × IsLaunched never (origin_pingora_main never) (bytes "0.0.0.0:3000")
    × IsLaunched never (origin_heph_main never) (bytes "0.0.0.0:3000")
    × IsLaunched never (proxy_pingora_main never) (bytes "0.0.0.0:3001")
mains-IsLaunched_example = mains-IsLaunched never

proxy_actix_main-IsLaunched_example :
    IsLaunched never (proxy_actix_main never loopback) (bytes "127.0.0.1:3001")
    × (has_run (proxy_actix_main never loopback []).1 ≡ true
        → forward_urls (proxy_actix_main never loopback []).1 ≡ bytes "http://127.0.0.1:3000" ∷ [])
proxy_actix_main-IsLaunched_example =
    proxy_actix_main-IsLaunched never loopback (bytes "127.0.0.1:3000") [] refl
