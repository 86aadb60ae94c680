-- ===== src/Authority/Planning.antt =====
-- The references and the event type that `_plan_event` returns are well formed.
use hermes_quant_agent.Prelude.{
  ℕ, List, [], ◌∷◌, true, ◌≡◌, refl, ap, ◌∙◌, arith, Option, none, some, Text, text, text_eq, All,
}
use hermes_quant_agent.Prelude.Outcome.{Result, Done, ok, err, ◌>>=◌, ◌>>◌}
use hermes_quant_agent.Prelude.Ensures.{Ensures, bind, done, fails, skip}
use hermes_quant_agent.Patterns.{is_identifier, safe_ref, is_name, is_alnum, is_one_of, all_chars}
use hermes_quant_agent.Patterns.Laws.{safe_ref-append, safe_digest-identifier}
use hermes_quant_agent.Json.{Items}
use hermes_quant_agent.Contract.Command.{
  StartResearch, ExpiryMutation, ExistingTask, TaskCommand, Command, Request, continue_research,
  bind_research_claim, propose_plan, revise_plan, request_plan_confirmation, confirm_plan,
  confirm_formula, bind_candidate_manifest, observe_submission, observe_run,
  observe_provider_evidence, observe_gate3, link_result, enter_domain_gate, resolve_domain_gate,
  begin_reconcile, resolve_reconcile, request_stop, observe_stop, complete_attempt, complete_task,
  expire_intent, observe_payload_tombstone, start_research, on_task,
}
use hermes_quant_agent.Contract.Validation.{
  Validated, Unicode, need, validate_ref, validate_attempt, validate_expiry,
}
use hermes_quant_agent.Contract.Validity.{validate_task_command, validate_on_task, validate_command}
use hermes_quant_agent.Authority.Event.{Event, event_type}
use hermes_quant_agent.Authority.Store.{Attempt, Task, Projection}
use hermes_quant_agent.Authority.Digests.{
  Digests, Authority, digest_of, generated_ref, generated_task_ref, generated_attempt_ref,
}
use hermes_quant_agent.Authority.Checks.{latest, last}
use hermes_quant_agent.Authority.Journal.{safe_attempt}
use hermes_quant_agent.Authority.Indexed.{HasSafeRef, IsIndexed}
use hermes_quant_agent.Authority.IndexedProjection.{IsIndexedProjection}
use hermes_quant_agent.Authority.Plan.{
  Planned, plan_start, plan_continue, plan_claim, plan_latest, plan_attempt, plan_live,
  plan_for_task, existing_task, plan_event,
}

pub record WellPlanned (e : Planned) : Type 0 where
  pub task : safe_ref e.task_ref (text "task:") ≡ true
  pub attempt : safe_attempt e.attempt_ref ≡ true
  pub kind : is_identifier (event_type e.event) ≡ true

generated_safe :
    (d : Digests) (prefix : Text) (parts : Items)
    → safe_ref (generated_ref d prefix parts) prefix ≡ true
unfolding generated_ref digest_of
generated_safe d prefix parts = safe_ref-append prefix _ (safe_digest-identifier _ (d.sha256_hex _))

last-safe : (l : List Attempt) {x : Attempt} → last l ≡ ok x → All HasSafeRef l → HasSafeRef x
unfolding last
last-safe [] h k = cc
last-safe (a ∷ []) h k = ground arith
last-safe (a ∷ b ∷ l) {x} h k = last-safe (b ∷ l) {x = x} h k.1

attempt_first :
    (s : Text) (k : Validated)
    → (validate_attempt s >> k) ≡ ok tt
    → safe_ref s (text "attempt:") ≡ true
unfolding validate_attempt validate_ref need ◌>>=◌
attempt_first s k h = ground arith

expiry_attempt :
    (id : Text) (e : ExistingTask) (c : ExpiryMutation)
    → validate_expiry id e c ≡ ok tt
    → safe_ref c.attempt_ref (text "attempt:") ≡ true
unfolding validate_expiry need
expiry_attempt id e c h = ground arith

after : {E : Type 0} (m k : Result E Done) → (m >> k) ≡ ok tt → k ≡ ok tt
unfolding ◌>>=◌
after (ok v) k h = h
after (err z) k h = cc

module _ (a : Authority) (t : Task) (ref : Text) (i : IsIndexed ref t) where
  task_safe : safe_ref t.task_ref (text "task:") ≡ true
  task_safe = ap (λ (z : Text). safe_ref z (text "task:")) i.key ∙ i.safe

  latest_planned :
      (e : Event) → is_identifier (event_type e) ≡ true → Ensures WellPlanned (plan_latest t e)
  unfolding plan_latest safe_attempt latest
  latest_planned e h = bind _ _ λ x hx.
      done (record { task = task_safe; attempt = last-safe t.attempts hx i.attempts; kind = h })

  attempt_planned :
      (s : Text) (e : Event)
      → safe_ref s (text "attempt:") ≡ true
      → is_identifier (event_type e) ≡ true
      → Ensures WellPlanned (plan_attempt t s e)
  unfolding plan_attempt safe_attempt
  attempt_planned s e h k = done (record { task = task_safe; attempt = h; kind = k })

  module _ (u : Unicode) (id : Text) (x : ExistingTask) (digest : Text) (now : ℕ) where
    live_planned :
        (c : TaskCommand)
        → validate_on_task u id x c ≡ ok tt
        → Ensures WellPlanned (plan_live a t c digest now)
    unfolding plan_live plan_continue plan_claim validate_on_task validate_task_command safe_attempt
        event_type generated_attempt_ref is_identifier is_name is_alnum is_one_of all_chars
    live_planned (continue_research c) h = skip _ _ (
        bind _ _ λ d _. done (record {
          task = task_safe;
          attempt = generated_safe a.digests (text "attempt:") _;
          kind = refl;
        }))
    live_planned (bind_research_claim c) h = bind _ _ λ y _. skip _ _ (
        bind _ _ λ d _.
          done
            (record { task = task_safe; attempt = attempt_first _ _ (after _ _ h); kind = refl }))
    live_planned (propose_plan c) h = latest_planned _ refl
    live_planned (revise_plan c) h = latest_planned _ refl
    live_planned (request_plan_confirmation c) h = latest_planned _ refl
    live_planned (confirm_plan c) h = latest_planned _ refl
    live_planned (confirm_formula c) h = latest_planned _ refl
    live_planned (bind_candidate_manifest c) h = latest_planned _ refl
    live_planned (observe_submission c) h =
        attempt_planned _ _ (attempt_first _ _ (after _ _ h)) refl
    live_planned (observe_run c) h =
        attempt_planned _ _ (attempt_first c.attempt_ref _ (after _ _ h)) refl
    live_planned (observe_provider_evidence c) h =
        attempt_planned _ _ (attempt_first _ _ (after _ _ h)) refl
    live_planned (observe_gate3 c) h = attempt_planned _ _ (attempt_first _ _ (after _ _ h)) refl
    live_planned (link_result c) h = attempt_planned _ _ (attempt_first _ _ (after _ _ h)) refl
    live_planned (enter_domain_gate c) h =
        attempt_planned _ _ (attempt_first _ _ (after _ _ h)) refl
    live_planned (resolve_domain_gate c) h =
        attempt_planned _ _ (attempt_first _ _ (after _ _ h)) refl
    live_planned (begin_reconcile c) h = attempt_planned _ _ (attempt_first _ _ (after _ _ h)) refl
    live_planned (resolve_reconcile c) h =
        attempt_planned _ _ (attempt_first _ _ (after _ _ h)) refl
    live_planned (request_stop c) h = attempt_planned _ _ (attempt_first _ _ (after _ _ h)) refl
    live_planned (observe_stop c) h = attempt_planned _ _ (attempt_first _ _ (after _ _ h)) refl
    live_planned (complete_attempt c) h = attempt_planned _ _ (attempt_first _ _ (after _ _ h)) refl
    live_planned (complete_task c) h = latest_planned _ refl
    live_planned (expire_intent c) h = skip _ _ (attempt_planned _ _ (expiry_attempt id x c h) refl)
    live_planned (observe_payload_tombstone c) h = fails

    task_planned :
        (n : ℕ) (c : TaskCommand)
        → validate_on_task u id x c ≡ ok tt
        → Ensures WellPlanned (plan_for_task a t n c digest now)
    unfolding plan_for_task validate_on_task event_type is_identifier is_name is_alnum is_one_of
        all_chars
    task_planned n (observe_payload_tombstone c) h =
        skip _ _ (skip _ _ (attempt_planned _ _ (expiry_attempt id x c h) refl))
    task_planned n c h = skip _ _ (skip _ _ (live_planned c h))

pub existing_task-get : (o : Option Task) {t : Task} → existing_task o ≡ ok t → o ≡ some t
unfolding existing_task
existing_task-get none h = cc
existing_task-get (some t) h = cc

module _ (a : Authority) (p : Projection) (i : IsIndexedProjection p) (u : Unicode) (digest : Text)
    (now : ℕ) where
  start_planned :
      (c : StartResearch) (id : Text) → Ensures WellPlanned (plan_start a p c id digest now)
  unfolding plan_start safe_attempt event_type generated_task_ref generated_attempt_ref
      is_identifier is_name is_alnum is_one_of all_chars
  start_planned c id = skip _ _ (
      skip _ _ (
        bind _ _ λ d _. done (record {
          task = generated_safe a.digests (text "task:") _;
          attempt = generated_safe a.digests (text "attempt:") _;
          kind = refl;
        })))

  request_planned :
      (id : Text) (q : Request)
      → validate_command u (record { operation_id = id; request = q }) ≡ ok tt
      → Ensures WellPlanned (plan_event a p (record { operation_id = id; request = q }) digest now)
  unfolding plan_event validate_command
  request_planned id (start_research c) h = start_planned c id
  request_planned id (on_task e c) h = bind _ _ λ t found.
      task_planned a t e.task_ref (i.each e.task_ref t (existing_task-get _ found)) u id e digest
        now e.expected_version c h

  -- Over a projection whose tasks stand under their references, a valid command is planned as an
  -- event whose task and attempt references and event type are well formed.
  pub plan_event-WellPlanned :
      (c : Command)
      → validate_command u c ≡ ok tt
      → Ensures WellPlanned (plan_event a p c digest now)
  plan_event-WellPlanned c h = request_planned c.operation_id c.request h
