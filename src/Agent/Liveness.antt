-- ===== src/Agent/Liveness.antt =====
-- What the agent's loop makes of the events of its watch, and when it ends
-- (exoscale/sks_agent_runner_node_csr_validation.go, lines 37-92).
use mathlib.Core.List.{append_assoc, append-nil}
use exoscale_cloud_controlle.Base.{
  String, ◌≡◌, refl, ◌∙◌, ◌≢◌, ap, none, some, List, [], ◌∷◌, ◌++◌, map, ◌==◌, string_eq,
  if◌then◌else◌, Bool-cases, Option-cases, inl, inr, All, concat_map,
}
use exoscale_cloud_controlle.Instances.Provider.{Provider}
use exoscale_cloud_controlle.Agent.Validation.{Certificates, Verdict}
use exoscale_cloud_controlle.Agent.Runner.{
  Event, connecting, watching, Input, watch_failed, watch_started, cancelled, closed, received,
  Runner, handle_event, step, step_in, run,
}

-- The names of the requests that an event adds.
abbrev pub added : Event → List String
added e = if e.type == "ADDED" then elim e.object [ none ↦ [] | some csr ↦ csr.name ∷ [] ] else []

module _ {W : Type 0} (p : Provider W) (c : Certificates W) where
  abbrev pub names : List (String × Verdict) → List String
  names = map λ h. h.0

  map-append : (xs ys : List (String × Verdict)) → names (xs ++ ys) ≡ names xs ++ names ys
  map-append [] ys = refl
  map-append (x ∷ xs) ys = ap (◌∷◌ x.0) (map-append xs ys)

  handle_event-added :
      (e : Event) (r : Runner p c)
      → (names (handle_event p c e r).handled ≡ names r.handled ++ added e)
        × ((handle_event p c e r).phase ≡ r.phase)
  unfolding handle_event
  handle_event-added e r = elim (Bool-cases (e.type == "ADDED")) [
    | inr f ↦ rw f (rw append-nil, refl)
    | inl f ↦ elim (Option-cases e.object) [
      | inl g ↦ rw (f, g) (rw append-nil, refl)
      | inr (csr, g) ↦ rw (f, g) (map-append r.handled _, refl)
    ]
  ]

  step-received :
      (e : Event) (r : Runner p c)
      → r.phase ≡ watching
      → step p c (received e) r ≡ handle_event p c e r
  unfolding step step_in
  step-received e r h = rw h refl

  step_in-connecting :
      (i : Input) (r : Runner p c) → i ≢ watch_started → step_in p c connecting i r ≡ r
  unfolding step_in
  step_in-connecting watch_failed r n = refl
  step_in-connecting watch_started r n = absurd (n refl)
  step_in-connecting cancelled r n = refl
  step_in-connecting closed r n = refl
  step_in-connecting (received e) r n = refl

  -- A runner that watches handles every request that is added, once and in the order of the events.
  pub run-handled :
      (events : List Event) (r : Runner p c)
      → r.phase ≡ watching
      → names (run p c (map received events) r).handled ≡ names r.handled ++ concat_map added events
  unfolding run
  run-handled [] r h = rw append-nil
  run-handled (e ∷ events) r h =
      let (more, same) = handle_event-added e r in
      ap (λ t. names (run p c (map received events) t).handled) (step-received e r h)
      ∙ run-handled events (handle_event p c e r) (same ∙ h)
      ∙ rw (more, append_assoc (names r.handled) (added e) (concat_map added events)) refl

  step-connecting :
      (i : Input) (r : Runner p c) → r.phase ≡ connecting → i ≢ watch_started → step p c i r ≡ r
  unfolding step
  step-connecting i r h n = ap (λ phase. step_in p c phase i r) h ∙ step_in-connecting i r n

  -- A runner whose requests for a watch fail does not end, whatever else happens: as long as no watch
  -- starts, no cancellation is noticed.
  pub run-unwatched :
      (inputs : List Input) (r : Runner p c)
      → r.phase ≡ connecting
      → All (λ i. i ≢ watch_started) inputs
      → run p c inputs r ≡ r
  unfolding run step
  run-unwatched [] r h all = refl
  run-unwatched (i ∷ inputs) r h all =
      ap (run p c inputs) (step-connecting i r h all.0) ∙ run-unwatched inputs r h all.1
