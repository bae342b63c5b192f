-- ===== src/Remote/Client/Routing.antt =====
-- Which response reaches which call.
use ledger_sim.Prelude.{
  ℕ, ◌+◌, ◌<◌, ◌≤◌, ◌≡◌, refl, ◌∙◌, false, Option, none, some, List, [], ◌∷◌, ◌++◌, ◌==◌,
  if◌then◌else◌, arith, inl, inr, Bool-cases,
}
use ledger_sim.Errors.{connection_reset_error}
use ledger_sim.Remote.Client.{
  Future, pending, finished, failed, Watcher, find, set_result, settle, reset, reset_all,
  run_events, run,
}

module _ {R : Type 0} where
  -- the first result with this nonce
  abbrev pub first_for : ℕ → List (Option ℕ × R) → Option R
  first_for n [] = none
  first_for n ((none, r) ∷ events) = first_for n events
  first_for n ((some m, r) ∷ events) = if m == n then some r else first_for n events

  -- what becomes of a future: a pending one gets the result, or the error of a connection that ended
  abbrev pub settled : Option R → Future R → Future R
  settled o (finished r) = finished r
  settled o (failed e) = failed e
  settled none pending = failed connection_reset_error
  settled (some r) pending = finished r

  abbrev pub on_found : (Future R → Future R) → Option (Future R) → Option (Future R)
  on_found g none = none
  on_found g (some f) = some (g f)

  find-reset_all :
      (n : ℕ) (fs : List (ℕ × Future R)) → find n (reset_all fs) ≡ on_found reset (find n fs)
  unfolding find reset_all
  find-reset_all n [] = refl
  find-reset_all n ((m, f) ∷ fs) = elim (Bool-cases (m == n)) [
    | inl same ↦ rw same refl
    | inr other ↦ rw other (find-reset_all n fs)
  ]

  find-settle :
      (n m : ℕ) (r : R) (fs : List (ℕ × Future R))
      → find n (settle (some m) r fs)
        ≡ (if m == n then on_found (set_result r) (find n fs) else find n fs)
  unfolding find settle
  find-settle n m r [] = ground arith
  find-settle n m r ((k, f) ∷ fs) = ground (arith, find-settle n m r fs)

  reset-settled : (o : Option (Future R)) → on_found reset o ≡ on_found (settled none) o
  reset-settled none = refl
  reset-settled (some pending) = refl
  reset-settled (some (finished r)) = refl
  reset-settled (some (failed e)) = refl

  -- The first result counts, and later ones do not.
  set_result-settled :
      (later : Option R) (r : R) (o : Option (Future R))
      → on_found (settled later) (on_found (set_result r) o) ≡ on_found (settled (some r)) o
  set_result-settled later r none = refl
  set_result-settled later r (some pending) = refl
  set_result-settled later r (some (finished r')) = refl
  set_result-settled later r (some (failed e)) = refl

  find-run_events :
      (n : ℕ) (events : List (Option ℕ × R)) (fs : List (ℕ × Future R))
      → find n (run_events events fs) ≡ on_found (settled (first_for n events)) (find n fs)
  unfolding run_events settle
  find-run_events n [] fs = find-reset_all n fs ∙ reset-settled (find n fs)
  find-run_events n ((none, r) ∷ events) fs = find-run_events n events fs
  find-run_events n ((some m, r) ∷ events) fs =
      let later = find-run_events n events (settle (some m) r fs) in
      elim (Bool-cases (m == n)) [
        | inl same ↦
            later
            ∙ rw (find-settle n m r fs, same)
                (set_result-settled (first_for n events) r (find n fs))
        | inr other ↦ later ∙ rw (find-settle n m r fs, other) refl
      ]

  -- When the stream of responses has ended, a call that was waiting has the first result with its nonce, or
  -- a ConnectionResetError if there is none; a call that had an outcome keeps it; and no call waits any more.
  pub find-run :
      (n : ℕ) (events : List (Option ℕ × R)) (w : Watcher R)
      → find n (run events w).nonce_to_future
        ≡ on_found (settled (first_for n events)) (find n w.nonce_to_future)
  unfolding run
  find-run n events w = find-run_events n events w.nonce_to_future

  -- The nonces that were given out are the numbers below the next one, each with its future, and the task runs.
  pub record IsWatching (w : Watcher R) : Type 0 where
    pub given : (n : ℕ) → n < w.initial_nonce → (f : Future R) × (find n w.nonce_to_future ≡ some f)
    pub fresh : (n : ℕ) → w.initial_nonce ≤ n → find n w.nonce_to_future ≡ none
    pub running : w.task_done ≡ false

  -- the watcher after a call
  abbrev after_call : Watcher R → Watcher R
  after_call w = record w {
    initial_nonce = w.initial_nonce + 1;
    nonce_to_future = w.nonce_to_future ++ (w.initial_nonce, pending) ∷ [];
  }
