-- ===== src/Lib.antt =====
-- The Hermes quant agent, modelled and verified: the research workflow authority, the prediction
-- ledger, the ledgers of research governance, and the policy of factor automation.
--
-- The program keeps research tasks in an append-only journal. A command (hqa/workflow_contract.py)
-- goes through `WorkflowAuthority.apply` (hqa/workflow_authority.py): the journal is replayed into a
-- projection, the command is planned as an event, the event becomes a record of a hash chain, the
-- reduction of the record is tried on the projection, and only then the record is appended and the
-- projection's file is published. The same reduction replays the journal whenever it is read. The
-- tables of hqa/agent_workspace_states.py say which states may follow each other.
--
-- The prediction ledger (hqa/predictions.py) is another append-only file. `create` normalizes a
-- request, prices it, and appends its event under a lock; `reconcile_due` scores the predictions
-- whose window is over, at most a limit of them in a call, and continues from a cursor. Both reduce
-- the file to its states before they write. The ledgers of hqa/trials.py and hqa/reviewlog.py, the
-- gate of hqa/gate.py, the end of a backtest window in hqa/holdout.py, and the policy of
-- hqa/factor_automation_policy.py govern what research may use and promote.
--
-- Which file models what:
-- - Prelude and its children: shared names, Boolean tests, texts, dicts, results, and `Ensures`, the
--   postconditions of code that may raise.
-- - Patterns: the regular expressions and the checks of references and digests.
-- - Json: `json.dumps` in the canonical form that is hashed. Clock: the normal form of timestamps.
-- - States: hqa/agent_workspace_states.py, its tables (States/Table) and its checks; the states of
--   tasks and attempts as enumerations with their texts (States/Machine), chains of transitions
--   (States/Laws, States/Endings) and result links (States/Links).
-- - Contract: hqa/workflow_contract.py, the commands (Contract/Command), their validation
--   (Contract/Validation, Contract/Validity) and canonical documents (Contract/Documents).
-- - Authority: hqa/workflow_authority.py. Authority/Event and Authority/Store hold the records and the
--   projection, Authority/Bindings `_bind_global`, Authority/Checks the `_validate_...` methods,
--   Authority/TaskEvents, PlanEvents, AttemptEvents, StopEvents and Expiry the branches of
--   `_reduce_existing_event`, Authority/Reduce `_reduce`, Authority/Document and ProjectionDocument
--   the JSON documents, Authority/Journal `_build_record`, `_validate_record` and `_replay`,
--   Authority/Plan `_plan_event`, Authority/Apply `apply` and `operation_receipt`,
--   Authority/Events `events`, Authority/Snapshot `snapshot`, Authority/Contexts,
--   Tombstones and Batches `consume_expiry_tombstones`, Authority/Backups `rebuild_projection`,
--   `reverse_audit`, `backup` and `restore`. The other children
--   of Authority hold proofs, and are named for what they prove.
-- - Floats: binary64 numbers. Texts: `str` methods. Dates: the calendar as day numbers, and the
--   parsers of dates and timestamps.
-- - Predictions: hqa/predictions.py. Predictions/Values, Request and Intent hold the normalization of
--   a request and its digest, Prices the two readings of the price history, Validation the checks of
--   both events, Ledger `_reduce` and `list`, Creation `create`, Scoring `_commit_score`, Reconcile
--   `reconcile_due`. The other children hold proofs.
-- - Governance: hqa/holdout.py (Holdout), hqa/gate.py (Gate; Permits holds its proofs),
--   hqa/trials.py (Trials; Warnings) and hqa/reviewlog.py (Reviews; Numbers, Filing and Drafts).
--   Lines holds the lines of both log files.
-- - Policy: hqa/factor_automation_policy.py, its evaluation, the loading of a policy
--   (Policy/Loading), its tests one by one (Policy/Verdicts) and what they mean (Policy/Conditions).
-- - Examples: a whole run of a task, by evaluation, and the theorems at concrete inputs; LedgerInput
--   and LedgerRun for the predictions, Governed for the gate, the policy and the states' endings,
--   Logs for the two log files,
--   Expired for a batch of expired payloads, Restored for a backup, Computing and LedgerComputing
--   for what runs by evaluation.
--
-- How the model corresponds to the code: a `str` is the list of its code points, a dict is an
-- association list in insertion order, and the indexes of bound references are a function from the
-- index's name. A timestamp is its instant in microseconds, printed in the normal form where a
-- document holds it, so the tests of that form hold by type, as the tests of the types and of the
-- sets of fields do. An event is one constructor for each event type with the fields of its `data`;
-- any other type is `unknown_event`. A closed set of texts is an enumeration with a case for any
-- other text. An attempt is an object inside its task, so a write to it is written back to the list;
-- the identity test of two attempts is the equality of their references, which `_attempt` requires
-- to be unique. A refused step leaves the files as they were, since it returns an error and no files.
--
-- A float is its binary64 pattern; its arithmetic is the exact one on fractions, rounded to nearest
-- with ties to even. A request for a prediction is a dict of values, an event of the ledger a typed
-- record, and the file the list of its events, where `none` is a file that does not exist. The texts
-- of error messages are left out, the codes are kept. The parsers of dates and timestamps take the
-- extended format only. `create` has two readings of the file, before its lock and under it;
-- no other process writes between the scores of `reconcile_due`. `Meanwhile` says what other processes
-- do to the files of the authority before each lock that the consumption of an expired payload takes.
--
-- The logs of hqa/trials.py and hqa/reviewlog.py are the texts of their files. The JSON codec of one
-- line is a parameter of each; a theorem on them asks that the entries at hand are written in one
-- line that is read back. Both readers pass over blank lines, so the two characters of a Windows line
-- end may end two lines. A setting of the strategy gate is a decoded JSON value.
--
-- Parameters of the predictions are the price history, the conversion of an instant to the day of the
-- market, the clock, SHA-256, `pow` and the printing of a float; those of the policy are the
-- classes of characters and the digest. No theorem assumes anything of them but what it states.
--
-- SHA-256 is a parameter, whose digests have 64 hexadecimal digits; nothing assumes that it has no
-- collisions. The classes of Unicode characters that `str.strip` and `str.isprintable` know are
-- parameters of the validation of notes. All functions recurse on their data, so no fuel is chosen,
-- but for the digits of a number, where the number itself is enough, the binary digits of
-- a fraction's parts in Floats, where 9000 is more than they have, and the rounds of
-- `_consume_expiry_tombstone`, which are four as in the source. The limits on the number of events
-- and on the bytes of a record, a journal, the projection and a backup are those of the source.
--
-- Not modelled: the lock, descriptors, modes and failures of the file system, so that each call is
-- one step; the reading of journal lines as strict JSON, which the records stand for
-- (an absent journal is an empty one, and the refusal of a projection file without a journal is
-- part of that reading);
-- the decoding of a backup and the directory it is in; the JSON codec of a line of the
-- prediction ledger; the rendering of review entries as Markdown; the repository's other modules.
pub mod Prelude
pub mod Patterns
pub mod States
pub mod Json
pub mod Contract
pub mod Authority
pub mod Clock
pub mod Floats
pub mod Texts
pub mod Dates
pub mod Predictions
pub mod Governance
pub mod Policy
pub mod Examples
