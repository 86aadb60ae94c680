-- ===== src/Governance/Reviews.antt =====
-- hqa/reviewlog.py: the review entries, which are appended to one file and read as the last line of each id.
use hermes_quant_agent.Prelude.{
  ℕ, suc, ◌+◌, List, [], ◌∷◌, ◌++◌, Bool, true, false, Option, none, some, Text, text, text_eq,
  option_eq, take, ◌==◌, is_some, if◌then◌else◌,
}
use hermes_quant_agent.Prelude.Dict.{Dict, put}
use hermes_quant_agent.Prelude.Outcome.{Result, ok, err, ◌>>=◌}
use hermes_quant_agent.Texts.{strip}
use hermes_quant_agent.Governance.Lines.{contents, split_lines, is_separator}
use hermes_quant_agent.Patterns.{strip_prefix}
use hermes_quant_agent.Predictions.Values.{render_id}

-- An entry; `data`, here `entry_data`, stands as its JSON text.
pub record Entry : Type 0 where
  pub id : Text
  pub ts : Text
  pub kind : Text
  pub status : Text
  pub fingerprint : Option Text
  pub event : Text
  pub entry_data : Text
  pub source : Text
  pub judgment : Text
  pub basis : Text
  pub result : Text
  pub failure_point : Text
  pub next_rule : Text

unfoldable pub load_from : Dict Text Entry → List Entry → Dict Text Entry
load_from by_id [] = by_id
load_from by_id (entry ∷ lines) = load_from (put entry.id entry by_id) lines

-- `json.dumps(entry, ensure_ascii=False, sort_keys=True)` and `json.loads`, where `none` is what raises.
pub record Codec : Type 0 where
  pub dumps : Entry → Text
  pub loads : Text → Option Entry

-- What `json.loads` and the lookup of the id raise.
pub data ReviewError : Type 0 where
  unreadable_line : ReviewError

abbrev pub loaded : Option Entry → Result ReviewError Entry
loaded none = err unreadable_line
loaded (some entry) = ok entry

abbrev pub is_empty : Text → Bool
is_empty [] = true
is_empty (c ∷ s) = false

-- One line before the rest: a blank one is passed over.
unfoldable pub read_line :
    Codec → Text → Bool → Result ReviewError (List Entry) → Result ReviewError (List Entry)
read_line codec line true rest = rest
read_line codec line false rest = do
  entry ← loaded (codec.loads line)
  entries ← rest
  ok (entry ∷ entries)

unfoldable pub read_lines : Codec → List Text → Result ReviewError (List Entry)
read_lines codec [] = ok []
read_lines codec (line ∷ lines) =
    read_line codec line (is_empty (strip line)) (read_lines codec lines)

-- `load_entries`: the dict by id, whose values are the entries
unfoldable pub load_entries : Codec → Option Text → Result ReviewError (Dict Text Entry)
load_entries codec file = do
  entries ← read_lines codec (split_lines is_separator (contents file))
  ok (load_from [] entries)

-- `_append_entry`
unfoldable pub append_entry : Codec → Entry → Option Text → Option Text
append_entry codec entry file = some (contents file ++ (codec.dumps entry ++ b'\n' ∷ []))

-- The first entry with the fingerprint.
unfoldable pub find_fingerprint : Text → Dict Text Entry → Option Text
find_fingerprint fingerprint [] = none
find_fingerprint fingerprint ((_, entry) ∷ entries) =
    let rest = find_fingerprint fingerprint entries in
    if entry.fingerprint == some fingerprint then some entry.id else rest

-- `sum(1 for e in entries if e["id"].startswith(day))`
unfoldable pub count_day : Text → Dict Text Entry → ℕ
count_day day [] = 0
count_day day ((_, entry) ∷ entries) =
    let rest = count_day day entries in
    if is_some (strip_prefix day entry.id) then suc rest else rest

-- What `new_draft` is called with.
pub record Draft : Type 0 where
  pub kind : Text
  pub event : Text
  pub entry_data : Text
  pub source : Text
  pub ts : Text
  pub fingerprint : Option Text

unfoldable pub draft_entry : Text → Draft → Entry
draft_entry id draft = record {
  id = id;
  ts = draft.ts;
  kind = draft.kind;
  status = text "draft";
  fingerprint = draft.fingerprint;
  event = draft.event;
  entry_data = draft.entry_data;
  source = draft.source;
  judgment = [];
  basis = [];
  result = [];
  failure_point = [];
  next_rule = [];
}

-- `entries` has an entry with the fingerprint, if there is one.
unfoldable pub known_draft : Option Text → Dict Text Entry → Option Text
known_draft none entries = none
known_draft (some fingerprint) entries = find_fingerprint fingerprint entries

-- `f"{day}-{seq:03d}"`
unfoldable pub next_entry_id : Text → Dict Text Entry → Text
next_entry_id day entries = render_id day (count_day day entries + 1)

unfoldable pub draft_unless_known :
    Codec → Draft → Dict Text Entry → Option Text → Option Text → Text × Option Text
draft_unless_known codec draft entries file (some id) = (id, file)
draft_unless_known codec draft entries file none =
    let id = next_entry_id (take 10 draft.ts) entries in
    (id, append_entry codec (draft_entry id draft) file)

-- `new_draft`: the id, and the file
unfoldable pub new_draft : Codec → Draft → Option Text → Result ReviewError (Text × Option Text)
new_draft codec draft file = do
  entries ← load_entries codec file
  ok (draft_unless_known codec draft entries file (known_draft draft.fingerprint entries))

-- The human fields.
pub record Judgment : Type 0 where
  pub judgment : Text
  pub basis : Text
  pub result : Text
  pub failure_point : Text
  pub next_rule : Text

unfoldable pub confirmed_entry : Entry → Judgment → Entry
confirmed_entry entry j = record entry {
  judgment = j.judgment;
  basis = j.basis;
  result = j.result;
  failure_point = j.failure_point;
  next_rule = j.next_rule;
  status = text "confirmed";
}

-- the first of the entries with the id
unfoldable pub find_entry : Text → Dict Text Entry → Option Entry
find_entry id [] = none
find_entry id ((_, entry) ∷ entries) =
    let rest = find_entry id entries in if entry.id == id then some entry else rest

unfoldable pub confirm_found : Codec → Judgment → Option Text → Option Entry → Bool × Option Text
confirm_found codec j file none = (false, file)
confirm_found codec j file (some entry) = (true, append_entry codec (confirmed_entry entry j) file)

-- `confirm`
unfoldable pub confirm :
    Codec → Text → Judgment → Option Text → Result ReviewError (Bool × Option Text)
confirm codec id j file = do
  entries ← load_entries codec file
  ok (confirm_found codec j file (find_entry id entries))
