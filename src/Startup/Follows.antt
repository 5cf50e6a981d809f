-- ===== src/Startup/Follows.antt =====
-- Code that makes a list of calls, up to the first that fails.
use benchmark_reverse_proxie.Common.{
  ◌≡◌, refl, ◌∙◌, Bool, true, false, not, ◌&&◌, List, [], ◌∷◌, ◌++◌, append_assoc, if◌then◌else◌,
  Bool-cases, inl, inr,
}
use benchmark_reverse_proxie.Common.Logged.{
  Result, ok, err, panicked, blocked, Logged, ◌>>=◌, ◌>>◌, unwrap,
}
use benchmark_reverse_proxie.Startup.{Call, stops, perform}

abbrev pub succeeded : Result (Unit {0}) → Bool
succeeded (ok a) = true
succeeded err = false
succeeded panicked = false
succeeded blocked = false

module _ (fails : Call → Bool) where
  abbrev pub up_to_failure : List Call → List Call
  up_to_failure [] = []
  up_to_failure (call ∷ calls) =
      let rest = up_to_failure calls in call ∷ (if stops fails call then [] else rest)

  abbrev pub faultless : List Call → Bool
  faultless [] = true
  faultless (call ∷ calls) = not (stops fails call) && faultless calls

  -- It makes the calls, up to the first that fails, and succeeds if none does.
  pub record Follows (m : Logged Call Unit) (calls : List Call) : Type 0 where
    pub logs : (log : List Call) → (m log).1 ≡ log ++ up_to_failure calls
    pub ends : (log : List Call) → succeeded (m log).0 ≡ faultless calls

  pub Follows-perform : {call : Call} → Follows (perform fails call) (call ∷ [])
  unfolding perform
  Follows-perform {call} = elim (Bool-cases (stops fails call)) [
    | inl bad ↦ record { logs = λ log. rw bad refl; ends = λ log. rw bad refl }
    | inr good ↦ record { logs = λ log. rw good refl; ends = λ log. rw good refl }
  ]

  later :
      (call : Call) {m : Logged Call Unit} {calls : List Call}
      → Follows m calls
      → (log : List Call) → (m (log ++ call ∷ [])).1 ≡ log ++ (call ∷ up_to_failure calls)
  later call {m} {calls} f log =
      f.logs (log ++ call ∷ []) ∙ append_assoc log (call ∷ []) (up_to_failure calls)

  module _ {call : Call} {m : Logged Call Unit} {calls : List Call} (f : Follows m calls) where
    pub Follows-then : Follows (perform fails call >> m) (call ∷ calls)
    unfolding perform ◌>>=◌
    Follows-then = elim (Bool-cases (stops fails call)) [
      | inl bad ↦ record { logs = λ log. rw bad refl; ends = λ log. rw bad refl }
      | inr good ↦ record {
        logs = λ log. rw good (later call f log);
        ends = λ log. rw good (f.ends (log ++ call ∷ []));
      }
    ]

    pub Follows-unwrap : Follows (unwrap (perform fails call) >> m) (call ∷ calls)
    unfolding perform ◌>>=◌ unwrap
    Follows-unwrap = elim (Bool-cases (stops fails call)) [
      | inl bad ↦ record { logs = λ log. rw bad refl; ends = λ log. rw bad refl }
      | inr good ↦ record {
        logs = λ log. rw good (later call f log);
        ends = λ log. rw good (f.ends (log ++ call ∷ []));
      }
    ]
