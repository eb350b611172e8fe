-- ===== src/RunnerPool/Execute/Lifecycle.antt =====
-- The process of a runner across a call of `execute` in sandbox/runner_pool.py.
use otari_sandbox_container.Base.{
  ℕ, ◌≡◌, refl, ap, sym, ◌∙◌, true, false, none, List, [], Text, codes, negsuc, arith, Bool-cases,
  if_true, if_false, inl, inr, ◌⊎◌,
}
use otari_sandbox_container.Utf8.Codec.{is_scalar_text}
use otari_sandbox_container.RunnerPool.{
  ExecOutcome, plain_outcome, ReadEvent, ReadEnd, done, died, overran, pending, read_until_done,
  initial_read, RunnerProcess, running, is_alive, start,
}
use otari_sandbox_container.RunnerPool.Execute.{
  Exchange, Result, returned, unicode_error, truncated_outcome, conclude, exchange_code, execute,
}
use otari_sandbox_container.RunnerPool.Execute.EndToEnd.{execute-done}

module _ (r₀ : RunnerProcess) (code : Text) (timeout : ℕ) (x : Exchange) where
  pub execute-unencodable :
      is_scalar_text code ≡ false
      → execute r₀ code timeout x ≡ (unicode_error, start r₀ x.spawned, x.events)
  unfolding execute
  execute-unencodable h = rw (h, execute) refl

  pub execute-unsent :
      is_scalar_text code ≡ true
      → x.send_ok ≡ false
      → execute r₀ code timeout x ≡ (
        returned (plain_outcome [] (codes "runner: pipe closed before send\n") (negsuc 0)),
        record (start r₀ x.spawned) { proc = none },
        x.events,
      )
  unfolding execute
  execute-unsent h sent = rw (h, execute) (if_false _ _ sent)

  pub execute-sent :
      is_scalar_text code ≡ true
      → x.send_ok ≡ true
      → execute r₀ code timeout x ≡ exchange_code (start r₀ x.spawned) timeout x
  unfolding execute
  execute-sent h sent = rw (h, execute) (if_true _ _ sent)

conclude-Settled :
    (r : RunnerProcess) (n : ℕ) (x : Exchange) (e : ReadEnd) (o : ExecOutcome) (r' : RunnerProcess)
    → conclude r n x e ≡ (returned o, r')
    → ((e' : ExecOutcome) × (e ≡ done e')) ⊎ (is_alive r' ≡ false)
unfolding conclude is_alive
conclude-Settled r n x (done e) o r' h = inl (e, refl)
conclude-Settled r n x (died out err) o r' h = inr (ground arith)
conclude-Settled r n x overran o r' h = cc
conclude-Settled r n x pending o r' h = inr (ground arith)

module _ (r₀ : RunnerProcess) (code : Text) (timeout : ℕ) (x : Exchange) (o : ExecOutcome)
    (r' : RunnerProcess) (left : List ReadEvent)
    (h : execute r₀ code timeout x ≡ (returned o, r', left)) where
  abbrev ReadToEnd : Type 0
  ReadToEnd =
      (e : ExecOutcome) × (read_until_done initial_read x.events ≡ (done e, left))
      × (truncated_outcome (start r₀ x.spawned).limits.max_output_bytes e ≡ returned o)
      × (r' ≡ start r₀ x.spawned)

  read_to_end :
      (e : ExecOutcome)
      → is_scalar_text code ≡ true
      → x.send_ok ≡ true
      → read_until_done initial_read x.events ≡ (done e, left)
      → ReadToEnd
  read_to_end e scalar sent reading =
      let same = sym (execute-done r₀ code timeout x e left scalar sent reading) ∙ h in
      (
        e,
        reading,
        ap (λ (z : Result × RunnerProcess × List ReadEvent). z.0) same,
        ap (λ (z : Result × RunnerProcess × List ReadEvent). z.1) (sym same),
      )

  settled_sent : is_scalar_text code ≡ true → x.send_ok ≡ true → ReadToEnd ⊎ (is_alive r' ≡ false)
  settled_sent scalar sent =
      let ending = read_until_done initial_read x.events in
      let q : exchange_code (start r₀ x.spawned) timeout x ≡ (returned o, r', left) =
        sym (execute-sent r₀ code timeout x scalar sent) ∙ h in
      elim (conclude-Settled (start r₀ x.spawned) timeout x ending.0 o r'
        (λ i. ((q i).0, (q i).1))) [
          | inl (e, p) ↦ inl (read_to_end e scalar sent (λ i. (p i, (q i).2)))
          | inr dead ↦ inr dead
        ]

  -- A returned outcome: the response was read to its done line, or the process is gone.
  pub execute_settled : ReadToEnd ⊎ (is_alive r' ≡ false)
  execute_settled = elim (Bool-cases (is_scalar_text code)) [
    | inl scalar ↦ elim (Bool-cases x.send_ok) [
      | inl sent ↦ settled_sent scalar sent
      | inr unsent ↦
          let q = sym (execute-unsent r₀ code timeout x scalar unsent) ∙ h in
          inr (
            unfold is_alive in
            ap (λ (z : Result × RunnerProcess × List ReadEvent). running z.1.proc) (sym q))
    ]
    | inr bad ↦ cc (execute-unencodable r₀ code timeout x bad)
  ]

  -- A call that returns an outcome and leaves a running process has read its events up to a done line:
  -- the outcome is the one that was read there, truncated to the limits of the runner; the process is
  -- the one that the call began with or spawned; and the events behind that line, whatever they are, are
  -- what it leaves.
  pub execute_in_sync :
      is_alive r' ≡ true
      → (e : ExecOutcome) × (read_until_done initial_read x.events ≡ (done e, left))
        × (truncated_outcome (start r₀ x.spawned).limits.max_output_bytes e ≡ returned o)
        × (r' ≡ start r₀ x.spawned)
  execute_in_sync alive = elim execute_settled [ inl read ↦ read | inr dead ↦ cc ]
