-- ===== src/Runner/Monitor.antt =====
-- What an action does to a state that is read off its log, and what it allows itself in each state.
use benchmark_reverse_proxie.Common.{
  ◌≡◌, refl, sym, ap, ◌∙◌, false, List, [], ◌∷◌, ◌++◌, append-nil, append_assoc, Option, none, some,
  Bool-cases, inl, inr, subst,
}
use benchmark_reverse_proxie.Common.Bytes.{Bytes}
use benchmark_reverse_proxie.Runner.System.{
  Op, output, Os, Result, ok, err, panicked, blocked, M, ◌>>=◌, pure, unwrap, unwrap_some, no_error,
  perform, command_output,
}

module _ {S : Type 0} (step : List Op → S → Op → S) where
  -- The state after some operations, which come after `log`.
  abbrev pub state : List Op → S → List Op → S
  state log s [] = s
  state log s (op ∷ ops) = state (log ++ op ∷ []) (step log s op) ops

  pub state-append :
      (log : List Op) (s : S) (xs ys : List Op)
      → state log s (xs ++ ys) ≡ state (log ++ xs) (state log s xs) ys
  state-append log s [] ys = ap (λ l. state l s ys) (sym (append-nil log))
  state-append log s (x ∷ xs) ys =
      state-append (log ++ x ∷ []) (step log s x) xs ys
      ∙ ap (λ l. state l (state (log ++ x ∷ []) (step log s x) xs) ys)
          (append_assoc log (x ∷ []) xs)

module _ {S : Type 0} (step : List Op → S → Op → S) (Allowed : S → Op → Type 0) where
  abbrev pub Allows : List Op → S → List Op → Type 0
  Allows log s [] = Unit
  Allows log s (op ∷ ops) = Allowed s op × Allows (log ++ op ∷ []) (step log s op) ops

  Allows-append :
      (log : List Op) (s : S) (xs ys : List Op)
      → Allows log s xs
      → Allows (log ++ xs) (state step log s xs) ys
      → Allows log s (xs ++ ys)
  Allows-append log s [] ys h k = subst (λ l. Allows l s ys) (append-nil log) k
  Allows-append log s (x ∷ xs) ys h k = (
    h.0,
    Allows-append (log ++ x ∷ []) (step log s x) xs ys h.1 (
        subst (λ l. Allows l (state step (log ++ x ∷ []) (step log s x) xs) ys)
          (sym (append_assoc log (x ∷ []) xs)) k),
  )

  -- What was allowed last.
  pub Allows-last :
      (log : List Op) (s : S) (xs : List Op) (op : Op)
      → Allows log s (xs ++ op ∷ [])
      → Allowed (state step log s xs) op
  Allows-last log s [] op h = h.0
  Allows-last log s (x ∷ xs) op h = Allows-last (log ++ x ∷ []) (step log s x) xs op h.1

  abbrev pub Ended : {A : Type 0} → List Op → S → (A → S) → List Op → Result A → Type 0
  Ended log s after new (ok a) = state step log s new ≡ after a
  Ended log s after new err = Unit
  Ended log s after new panicked = Unit
  Ended log s after new blocked = Unit

  -- From the state `s` the action does only what is allowed, and leaves `after a` where it returns
  -- `a`.
  pub record Keeps {A : Type 0} (s : S) (after : A → S) (action : M A) : Type 0 where
    pub at :
        (log : List Op)
        → (new : List Op) × ((action log).1 ≡ log ++ new)
          × Allows log s new
          × Ended log s after new (action log).0

  pub Keeps-pure :
      {A : Type 0} (s : S) (after : A → S) (a : A) → s ≡ after a → Keeps s after (pure a)
  unfolding pure
  Keeps-pure s after a e = record { at = λ log. ([], sym (append-nil log), tt, e) }

  pub Keeps-unwrap_some : {A : Type 0} (s : S) (o : Option A) → Keeps s (λ a. s) (unwrap_some o)
  unfolding unwrap_some
  Keeps-unwrap_some s none = record { at = λ log. ([], sym (append-nil log), tt, tt) }
  Keeps-unwrap_some s (some a) = record { at = λ log. ([], sym (append-nil log), tt, refl) }

  unwrapped :
      {A : Type 0} (log : List Op) (s : S) (after : A → S) (new : List Op) (r : Result A)
      → Ended log s after new r
      → Ended log s after new (no_error r)
  unwrapped log s after new (ok a) h = h
  unwrapped log s after new err h = tt
  unwrapped log s after new panicked h = tt
  unwrapped log s after new blocked h = tt

  pub Keeps-unwrap :
      {A : Type 0} (s : S) (after : A → S) (action : M A)
      → Keeps s after action
      → Keeps s after (unwrap action)
  unfolding unwrap
  Keeps-unwrap s after action h = record {
    at = λ log.
        let (new, e, allowed, d) = h.at log in
        (new, e, allowed, unwrapped log s after new (action log).0 d);
  }

  Ended-append :
      {A : Type 0} (log : List Op) (s : S) (after : A → S) (xs ys : List Op) (r : Result A)
      → Ended (log ++ xs) (state step log s xs) after ys r
      → Ended log s after (xs ++ ys) r
  Ended-append log s after xs ys (ok a) h = state-append step log s xs ys ∙ h
  Ended-append log s after xs ys err h = tt
  Ended-append log s after xs ys panicked h = tt
  Ended-append log s after xs ys blocked h = tt

  bind_at :
      {A B : Type 0} (s : S) (between : A → S) (after : B → S) (f : A → M B)
      → ((a : A) → Keeps (between a) after (f a))
      → (r : Result A) (log log' xs : List Op) → log' ≡ log ++ xs
      → Allows log s xs
      → Ended log s between xs r
      → let out = ((λ (l : List Op). (r, log')) >>= f) log in
        (new : List Op) × (out.1 ≡ log ++ new) × Allows log s new × Ended log s after new out.0
  unfolding ◌>>=◌
  bind_at s between after f k (ok a) log log' xs e allowed d =
      let (ys, grown, more, c) = (k a).at log' in
      let moved = λ (P : List Op → S → Type 0) (x : P log' (between a)).
        subst (λ l. P l (state step log s xs)) e (subst (P log') (sym d) x) in
      (
        xs ++ ys,
        grown ∙ ap (λ l. l ++ ys) e ∙ append_assoc log xs ys,
        Allows-append log s xs ys allowed (moved (λ l t. Allows l t ys) more),
        Ended-append log s after xs ys (f a log').0
            (moved (λ l t. Ended l t after ys (f a log').0) c),
      )
  bind_at s between after f k err log log' xs e allowed d = (xs, e, allowed, tt)
  bind_at s between after f k panicked log log' xs e allowed d = (xs, e, allowed, tt)
  bind_at s between after f k blocked log log' xs e allowed d = (xs, e, allowed, tt)

  pub Keeps-bind :
      {A B : Type 0} (s : S) (between : A → S) (after : B → S) (action : M A) (f : A → M B)
      → Keeps s between action
      → ((a : A) → Keeps (between a) after (f a))
      → Keeps s after (action >>= f)
  unfolding ◌>>=◌
  Keeps-bind s between after action f h k = record {
    at = λ log.
        let (xs, e, allowed, d) = h.at log in
        bind_at s between after f k (action log).0 log (action log).1 xs e allowed d;
  }

  module _ (os : Os) where
    pub Keeps-perform :
        (s t : S) (op : Op)
        → Allowed s op
        → ((log : List Op) → os.fails log op ≡ false → step log s op ≡ t)
        → Keeps s (λ a. t) (perform os op)
    unfolding perform
    Keeps-perform s t op may e = record {
      at = λ log. (
        op ∷ [],
        refl,
        (may, tt),
        elim (Bool-cases (os.fails log op)) [
          | inl bad ↦ rw bad tt
          | inr good ↦ rw good (e log good)
        ],
      );
    }

    pub Keeps-command_output :
        (s t : S) (program : Bytes) (args : List Bytes)
        → Allowed s (output program args)
        → ((log : List Op)
            → os.fails log (output program args) ≡ false
            → step log s (output program args) ≡ t)
        → Keeps s (λ a. t) (command_output os program args)
    unfolding command_output
    Keeps-command_output s t program args may e = record {
      at = λ log.
          (Keeps-bind s (λ a. t) (λ a. t) (perform os (output program args)) _
              (Keeps-perform s t (output program args) may e)
              (λ a. Keeps-pure t (λ b. t) (os.printed log (output program args)) refl)).at
            log;
    }
