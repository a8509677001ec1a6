-- ===== src/Agent/Runner.antt =====
-- The agent's loop (exoscale/sks_agent_runner_node_csr_validation.go, lines 37-92) as a machine that is
-- driven by what the watch answers, and the start of the runners (exoscale/sks_agent.go).
use exoscale_cloud_controlle.Base.{
  String, Option, none, some, List, [], ◌∷◌, ◌++◌, ◌==◌, string_eq, if◌then◌else◌, Error, errorf,
}
use exoscale_cloud_controlle.Agent.Validation.{Csr, Verdict, Certificates, handle_csr}
use exoscale_cloud_controlle.Instances.Provider.{Provider}

-- An event of the watch; its object may be of another kind.
pub record Event : Type 0 where
  pub type : String
  pub object : Option Csr

-- The outer loop, which asks for a watch, the inner loop, and the return.
pub data Phase : Type 0 where
  connecting : Phase
  watching : Phase
  terminated : Phase

-- What comes next: the answer to the request for a watch, or what the `select` takes.
pub data Input : Type 0 where
  watch_failed : Input
  watch_started : Input
  cancelled : Input
  closed : Input
  received : Event → Input

module _ {W : Type 0} (p : Provider W) (c : Certificates W) where
  pub record Runner : Type 0 where
    pub phase : Phase
    pub world : W
    -- the requests handled so far, with how they ended
    pub handled : List (String × Verdict)

  unfoldable pub handle_event : Event → Runner → Runner
  handle_event e r =
      if e.type == "ADDED"
      then elim e.object [
        | none ↦ r
        | some csr ↦
            let (verdict, w) = handle_csr p c csr r.world in
            record r { world = w; handled = r.handled ++ ((csr.name, verdict) ∷ []) }
      ]
      else r

  -- An input that the phase does not wait for changes nothing.
  unfoldable pub step_in : Phase → Input → Runner → Runner
  step_in connecting watch_started r = record r { phase = watching }
  step_in watching cancelled r = record r { phase = terminated }
  step_in watching closed r = record r { phase = connecting }
  step_in watching (received e) r = handle_event e r
  step_in _ _ r = r

  unfoldable pub step : Input → Runner → Runner
  step i r = step_in r.phase i r

  unfoldable pub run : List Input → Runner → Runner
  run [] r = r
  run (i ∷ inputs) r = run inputs (step i r)

abbrev pub node_csr_validation : String
node_csr_validation = "node-csr-validation"

-- `runSKSAgent`: the runners that were started, and the error for the first unknown name.
unfoldable pub run_sks_agent : List String → List String × Option Error
run_sks_agent [] = ([], none)
run_sks_agent (r ∷ runners) =
    let (started, e) = run_sks_agent runners in
    if r == node_csr_validation
    then (r ∷ started, e)
    else ([], some (errorf "unsupported runner %q" (r ∷ [])))
