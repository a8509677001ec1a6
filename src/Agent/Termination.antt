-- ===== src/Agent/Termination.antt =====
-- When the agent's loop ends (exoscale/sks_agent_runner_node_csr_validation.go, lines 43-92).
use exoscale_cloud_controlle.Base.{◌≡◌, refl, ◌∙◌, ap, List, [], ◌∷◌, ◌++◌}
use exoscale_cloud_controlle.Instances.Provider.{Provider}
use exoscale_cloud_controlle.Agent.Validation.{Certificates}
use exoscale_cloud_controlle.Agent.Runner.{
  watching, terminated, Input, watch_failed, watch_started, cancelled, closed, received, Runner,
  step, step_in, run,
}

module _ {W : Type 0} (p : Provider W) (c : Certificates W) where
  run-append :
      (xs ys : List Input) (r : Runner p c) → run p c (xs ++ ys) r ≡ run p c ys (run p c xs r)
  unfolding run
  run-append [] ys r = refl
  run-append (x ∷ xs) ys r = run-append xs ys (step p c x r)

  step_in-terminated : (i : Input) (r : Runner p c) → step_in p c terminated i r ≡ r
  unfolding step_in
  step_in-terminated watch_failed r = refl
  step_in-terminated watch_started r = refl
  step_in-terminated cancelled r = refl
  step_in-terminated closed r = refl
  step_in-terminated (received e) r = refl

  step-terminated : (i : Input) (r : Runner p c) → r.phase ≡ terminated → step p c i r ≡ r
  unfolding step
  step-terminated i r h = ap (λ phase. step_in p c phase i r) h ∙ step_in-terminated i r

  run-terminated :
      (inputs : List Input) (r : Runner p c) → r.phase ≡ terminated → run p c inputs r ≡ r
  unfolding run
  run-terminated [] r h = refl
  run-terminated (i ∷ inputs) r h =
      ap (run p c inputs) (step-terminated i r h) ∙ run-terminated inputs r h

  step-cancelled :
      (r : Runner p c) → r.phase ≡ watching → step p c cancelled r ≡ record r { phase = terminated }
  unfolding step step_in
  step-cancelled r h = ap (λ phase. step_in p c phase cancelled r) h

  -- A cancellation that finds the runner watching ends it: it has handled what it had handled by then,
  -- and stays as it is, whatever comes after.
  pub run-cancelled :
      (before after : List Input) (r : Runner p c)
      → (run p c before r).phase ≡ watching
      → run p c (before ++ (cancelled ∷ after)) r ≡ record (run p c before r) { phase = terminated }
  unfolding run
  run-cancelled before after r h =
      run-append before (cancelled ∷ after) r
      ∙ ap (run p c after) (step-cancelled (run p c before r) h)
      ∙ run-terminated after (record (run p c before r) { phase = terminated }) refl
