-- ===== src/Tokio/Date/Copy.antt =====
-- The two copies of the date cache behave alike.
use benchmark_reverse_proxie.Common.{
  ℕ, not, ◌==◌, if◌then◌else◌, ◌≡◌, refl, sym, ap, subst, flatten, List, [], ◌∷◌, Option,
}
use benchmark_reverse_proxie.Common.Bytes.{Bytes}
use benchmark_reverse_proxie.Common.Exec.{Exec, Outcome, done, pure, unwrap, ◌>>=◌, ◌>>◌}
use benchmark_reverse_proxie.Toysync.Date
use benchmark_reverse_proxie.Toysync.Date.{
  SystemTime, since_epoch, before_epoch, LastRenderedNow, unix_secs,
}
use benchmark_reverse_proxie.Toysync.Date.Cache
use benchmark_reverse_proxie.Toysync.Date.Cache.{IsRendering, IsCoherent, InRange}
use benchmark_reverse_proxie.Tokio.Date.{write_str, write_pieces, buffer, update, fmt}

write_pieces-copy : (ss : List Bytes) → write_pieces ss ≡ Date.write_pieces ss
unfolding write_pieces Date.write_pieces write_str Date.write_str
write_pieces-copy [] = refl
write_pieces-copy (s ∷ ss) = rw (write_pieces-copy ss) refl

pieces : write_pieces ≡ Date.write_pieces
pieces i ss = write_pieces-copy ss i

module _ (http_date : SystemTime → Option (List Bytes)) where
  -- `fmt`, with what writes the pieces as an argument.
  abbrev fmt_with :
      (List Bytes → Exec LastRenderedNow Unit) → SystemTime → ℕ → Exec LastRenderedNow Bytes
  fmt_with write now secs cache =
      ((if not (cache.unix_date == secs)
            then (λ c. (unwrap (http_date now) >>= write) (record c { amt = 0; unix_date = secs }))
            else pure tt)
          >> Date.buffer)
        cache

  -- On every clock and cache the date module of origin-tokio does what that of origin-toysync does.
  pub fmt-copy :
      (now : SystemTime) (cache : LastRenderedNow)
      → fmt http_date now cache ≡ Date.fmt http_date now cache
  unfolding fmt Date.fmt update Date.update buffer Date.buffer
  fmt-copy (since_epoch secs nanos) cache =
      ap (λ w. fmt_with w (since_epoch secs nanos) secs cache) pieces
  fmt-copy (before_epoch secs nanos) cache =
      ap (λ w. fmt_with w (before_epoch secs nanos) 0 cache) pieces

module _ (http_date : SystemTime → Option (List Bytes)) (limit : ℕ) (render : ℕ → List Bytes)
    (r : IsRendering http_date limit render) where
  -- So what is proved of the one copy holds of the other.
  pub fmt-render :
      (now : SystemTime) (c : LastRenderedNow)
      → InRange limit now
      → IsCoherent render c
      → ((fmt http_date now c).0 ≡ done (flatten (render (unix_secs now))))
        × IsCoherent render (fmt http_date now c).1
        × ((fmt http_date now c).1.unix_date ≡ unix_secs now)
  fmt-render now c h k =
      subst
        (λ (o : Outcome Bytes × LastRenderedNow).
          (o.0 ≡ done (flatten (render (unix_secs now))))
          × IsCoherent render o.1
          × (o.1.unix_date ≡ unix_secs now))
        (sym (fmt-copy http_date now c)) (Cache.fmt-render http_date limit render r now c h k)
