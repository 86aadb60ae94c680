-- ===== src/Authority/Identifiers.antt =====
-- A valid command has a well-formed operation id.
use hermes_quant_agent.Prelude.{true, ◌≡◌, arith, Text, text_eq}
use hermes_quant_agent.Prelude.Outcome.{ok, ◌>>=◌, ◌>>◌}
use hermes_quant_agent.Patterns.{is_identifier}
use hermes_quant_agent.Contract.Command.{
  ExpiryMutation, ExistingTask, TaskCommand, Command, Request, expire_intent,
  observe_payload_tombstone, start_research, on_task,
}
use hermes_quant_agent.Contract.Validation.{
  Validated, Unicode, need, validate_expiry, validate_identifier,
}
use hermes_quant_agent.Contract.Validity.{
  validate_existing_task, validate_on_task, validate_command,
}

identifier_first :
    (s : Text) (field : Text) (k : Validated)
    → (validate_identifier s field >> k) ≡ ok tt
    → is_identifier s ≡ true
unfolding validate_identifier need ◌>>=◌
identifier_first s field k h = ground arith

existing_identifier :
    (s : Text) (e : ExistingTask) (k : Validated)
    → (validate_existing_task s e >> k) ≡ ok tt
    → is_identifier s ≡ true
unfolding validate_existing_task validate_identifier need ◌>>=◌
existing_identifier s e k h = ground arith

expiry_identifier :
    (id : Text) (e : ExistingTask) (c : ExpiryMutation)
    → validate_expiry id e c ≡ ok tt
    → is_identifier id ≡ true
unfolding validate_expiry need
expiry_identifier id e c h = ground arith

on_task_identifier :
    (u : Unicode) (id : Text) (e : ExistingTask) (c : TaskCommand)
    → validate_on_task u id e c ≡ ok tt
    → is_identifier id ≡ true
unfolding validate_on_task
on_task_identifier u id e (expire_intent c) h = expiry_identifier id e c h
on_task_identifier u id e (observe_payload_tombstone c) h = expiry_identifier id e c h
on_task_identifier u id e c h = existing_identifier id e _ h

request_identifier :
    (u : Unicode) (id : Text) (q : Request)
    → validate_command u (record { operation_id = id; request = q }) ≡ ok tt
    → is_identifier id ≡ true
unfolding validate_command
request_identifier u id (start_research c) h = identifier_first id _ _ h
request_identifier u id (on_task e c) h = on_task_identifier u id e c h

pub validate_command-identifier :
    (u : Unicode) (c : Command) → validate_command u c ≡ ok tt → is_identifier c.operation_id ≡ true
validate_command-identifier u c h = request_identifier u c.operation_id c.request h
