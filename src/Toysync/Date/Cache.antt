-- ===== src/Toysync/Date/Cache.antt =====
-- The cache against the rendering that it saves.
use benchmark_reverse_proxie.Common.{
  ℕ, ◌≤◌, ◌<◌, ◌≡◌, refl, sym, ap, ◌∙◌, inl, inr, true, List, [], ◌∷◌, map, flatten, Option, some,
  arith, length, le→leb, All, ==_iff, ◌==◌, Bool-cases,
}
use benchmark_reverse_proxie.Common.Bytes.{Bytes}
use benchmark_reverse_proxie.Common.Bytes.Utf8.{is_utf8, is_utf8-append}
use benchmark_reverse_proxie.Common.Exec.{done}
use benchmark_reverse_proxie.Toysync.Date.{
  SystemTime, since_epoch, before_epoch, unix_secs, LastRenderedNow, last, buffer, update, fmt,
  fmt_all,
}
use benchmark_reverse_proxie.Toysync.Date.Buffer.{IsValid, text, write_pieces-Wrote}

-- What httpdate documents: up to the year 9999 a time is rendered as a text of its second alone (the
-- 29 bytes of an IMF-fixdate, so it fits the array). `limit` is the first second that is refused.
pub record IsRendering (http_date : SystemTime → Option (List Bytes)) (limit : ℕ)
    (render : ℕ → List Bytes) : Type 0 where
  pub renders :
      (secs nanos : ℕ) → secs < limit → http_date (since_epoch secs nanos) ≡ some (render secs)
  pub fits : (secs : ℕ) → length (flatten (render secs)) ≤ 128
  pub is_text : (secs : ℕ) → All (λ s. is_utf8 s ≡ true) (render secs)

is_utf8-flatten : (ss : List Bytes) → All (λ s. is_utf8 s ≡ true) ss → is_utf8 (flatten ss) ≡ true
unfolding flatten is_utf8
is_utf8-flatten [] h = refl
is_utf8-flatten (s ∷ ss) h = is_utf8-append s (flatten ss) h.0 (is_utf8-flatten ss h.1)

buffer_lem :
    (c : LastRenderedNow) → IsValid c → is_utf8 (text c) ≡ true → buffer c ≡ (done (text c), c)
unfolding buffer
buffer_lem c v u = rw (le→leb c.amt (length c.bytes) (omega (arith, v.size)), u)

-- The clock lies after the epoch's first second, and before the limit.
abbrev pub InRange : ℕ → SystemTime → Type 0
InRange limit now = (0 < unix_secs now) × (unix_secs now < limit)

-- The cache holds the text of its second, or nothing was ever rendered.
pub record IsCoherent (render : ℕ → List Bytes) (c : LastRenderedNow) : Type 0 where
  pub valid : IsValid c
  pub shows : 0 < c.unix_date → text c ≡ flatten (render c.unix_date)

pub last-IsCoherent : (render : ℕ → List Bytes) → IsCoherent render last
last-IsCoherent render = record {
  valid = record { size = refl; within = omega arith };
  shows = λ h. absurd (omega arith);
}

module _ (http_date : SystemTime → Option (List Bytes)) (limit : ℕ) (render : ℕ → List Bytes)
    (r : IsRendering http_date limit render) where
  update-IsCoherent :
      (now : SystemTime) (c : LastRenderedNow)
      → InRange limit now
      → IsValid c
      → ((update http_date now (unix_secs now) c).0 ≡ done tt)
        × IsCoherent render (update http_date now (unix_secs now) c).1
        × ((update http_date now (unix_secs now) c).1.unix_date ≡ unix_secs now)
  unfolding update
  update-IsCoherent (before_epoch secs nanos) c h v = absurd (omega arith)
  update-IsCoherent (since_epoch secs nanos) c h v =
      let empty : LastRenderedNow = record c { amt = 0; unix_date = secs } in
      let (all, w) =
        write_pieces-Wrote (render secs) empty (record { size = v.size; within = omega arith })
          (omega (arith, r.fits secs)) in
      rw (r.renders secs nanos h.1) (
        all,
        record {
          valid = w.valid;
          shows = λ _. w.text ∙ ap (λ k. flatten (render k)) (sym w.unix_date);
        },
        w.unix_date,
      )

  buffer-render :
      (c : LastRenderedNow)
      → IsCoherent render c
      → 0 < c.unix_date
      → buffer c ≡ (done (flatten (render c.unix_date)), c)
  buffer-render c h p =
      buffer_lem c h.valid
        (rw (h.shows p) (is_utf8-flatten (render c.unix_date) (r.is_text c.unix_date)))
      ∙ ap (λ t. (done t, c)) (h.shows p)

  -- From a coherent cache, at a time in the range that httpdate renders, a call of `fmt` writes the
  -- text of the present second, whether it is cached or not, and leaves a coherent cache that holds
  -- this second.
  pub fmt-render :
      (now : SystemTime) (c : LastRenderedNow)
      → InRange limit now
      → IsCoherent render c
      → ((fmt http_date now c).0 ≡ done (flatten (render (unix_secs now))))
        × IsCoherent render (fmt http_date now c).1
        × ((fmt http_date now c).1.unix_date ≡ unix_secs now)
  unfolding fmt
  fmt-render now c h k = elim (Bool-cases (c.unix_date == unix_secs now)) [
    | inl hit ↦
        let same = (==_iff c.unix_date (unix_secs now)).0 hit in
        rw (hit, buffer-render c k (omega (arith, h.0)))
          (ap (λ n. done (flatten (render n))) same, k, same)
    | inr miss ↦
        let (finished, fresh, date) = update-IsCoherent now c h k.valid in
        rw (miss, finished, buffer-render _ fresh (omega (arith, h.0, date)))
          (ap (λ n. done (flatten (render n))) date, fresh, date)
  ]

  fmt_all_from :
      (times : List SystemTime) (c : LastRenderedNow)
      → All (InRange limit) times
      → IsCoherent render c
      → (fmt_all http_date times c).0 ≡ done (map (λ t. flatten (render (unix_secs t))) times)
  unfolding fmt_all
  fmt_all_from [] c h k = refl
  fmt_all_from (now ∷ later) c h k =
      let (written, fresh, date) = fmt-render now c h.0 k in
      rw (written, fmt_all_from later (fmt http_date now c).1 h.1 fresh)

  -- The cache is not observable: whatever the times at which one thread asks, as long as they are
  -- in the range that httpdate renders, each call writes what an uncached rendering of its time
  -- gives.
  pub fmt_all-render :
      (times : List SystemTime)
      → All (InRange limit) times
      → (fmt_all http_date times last).0 ≡ done (map (λ t. flatten (render (unix_secs t))) times)
  fmt_all-render times h = fmt_all_from times last h (last-IsCoherent render)
