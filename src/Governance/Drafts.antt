-- ===== src/Governance/Drafts.antt =====
-- hqa/reviewlog.py: the ids of the drafts, `YYYY-MM-DD-NNN`.
use hermes_quant_agent.Prelude.{
  ◌≤◌, ◌≡◌, refl, sym, ◌∙◌, subst, arith, ◌⊎◌, inl, inr, List, [], ◌∷◌, ◌++◌, Bool, true, false,
  Bool-cases, Option, none, some, Text, text_eq, option_eq, ◌==◌, take, length,
}
use hermes_quant_agent.Prelude.Dict.{Dict, get, put}
use hermes_quant_agent.Prelude.Outcome.{ok, >>=-ok, >>=-eq-ok}
use hermes_quant_agent.Governance.Lines.{contents, split_lines, is_ended}
use hermes_quant_agent.Governance.Reviews.{
  Entry, load_from, Codec, read_lines, load_entries, append_entry, find_fingerprint, Draft,
  draft_entry, known_draft, next_entry_id, draft_unless_known, new_draft, Judgment, confirmed_entry,
  find_entry, confirm_found, confirm,
}
use hermes_quant_agent.Governance.Numbers.{
  load_from-snoc, AllNumbered, length-take, next_entry_id-fresh, Keyed, load_from-Keyed,
  find_entry-get, drafted-AllNumbered, confirmed-AllNumbered,
}
use hermes_quant_agent.Governance.Filing.{
  IsLine, Reads, append_entry-Reads, Reads-load_entries, append_entry-load_entries,
}

-- The next entry of the draft is written as a line that is read back.
abbrev pub CanBeFiled : Codec → Draft → Option Text → Type 0
CanBeFiled codec draft file =
    (entries : Dict Text Entry)
    → load_entries codec file ≡ ok entries
    → IsLine codec (draft_entry (next_entry_id (take 10 draft.ts) entries) draft)

-- The entry with the judgment is, if there is one.
abbrev pub CanBeConfirmed : Codec → Text → Judgment → Option Text → Type 0
CanBeConfirmed codec id j file =
    (entries : Dict Text Entry) (entry : Entry)
    → load_entries codec file ≡ ok entries
    → find_entry id entries ≡ some entry
    → IsLine codec (confirmed_entry entry j)

-- The files that calls of new_draft and confirm make where there was none, each draft with a date in its time.
pub data Edits (codec : Codec) : Option Text → Type 0 where
  no_file : Edits codec none
  drafted :
      {file after : Option Text} (draft : Draft) (id : Text)
      → 10 ≤ length draft.ts
      → CanBeFiled codec draft file
      → new_draft codec draft file ≡ ok (id, after)
      → Edits codec file
      → Edits codec after
  confirmed :
      {file after : Option Text} (id : Text) (j : Judgment) (found : Bool)
      → CanBeConfirmed codec id j file
      → confirm codec id j file ≡ ok (found, after)
      → Edits codec file
      → Edits codec after

-- A file that reads as entries that are numbered within their days.
pub record IsLog (codec : Codec) (file : Option Text) : Type 0 where
  pub entries : List Entry
  pub reads : Reads codec file entries
  pub numbered : AllNumbered (load_from [] entries)

module _ (codec : Codec) where
  appended-IsLog :
      (entry : Entry) (file : Option Text) (log : IsLog codec file)
      → IsLine codec entry
      → AllNumbered (put entry.id entry (load_from [] log.entries))
      → IsLog codec (append_entry codec entry file)
  appended-IsLog entry file log line n = record {
    entries = log.entries ++ entry ∷ [];
    reads = append_entry-Reads codec entry file log.reads line;
    numbered = subst AllNumbered (sym (load_from-snoc [] log.entries entry)) n;
  }

  drafted-IsLog :
      (draft : Draft) (file : Option Text) (log : IsLog codec file) (known : Option Text)
      → 10 ≤ length draft.ts
      → CanBeFiled codec draft file
      → IsLog codec (draft_unless_known codec draft (load_from [] log.entries) file known).1
  unfolding draft_unless_known
  drafted-IsLog draft file log (some id) long line = log
  drafted-IsLog draft file log none long line =
      appended-IsLog _ file log (line _ (Reads-load_entries codec file log.reads))
        (drafted-AllNumbered draft (load_from [] log.entries) long log.numbered)

  confirmed-IsLog :
      (id : Text) (j : Judgment) (file : Option Text) (log : IsLog codec file)
      (found : Option Entry)
      → find_entry id (load_from [] log.entries) ≡ found
      → CanBeConfirmed codec id j file
      → IsLog codec (confirm_found codec j file found).1
  unfolding confirm_found confirmed_entry AllNumbered Keyed
  confirmed-IsLog id j file log none g line = log
  confirmed-IsLog id j file log (some entry) g line =
      let entries = load_from [] log.entries in
      let at : get id entries ≡ some entry =
        sym (find_entry-get id entries (load_from-Keyed [] log.entries tt)) ∙ g in
      let k : id ≡ entry.id = (log.numbered id entry at).key in
      appended-IsLog (confirmed_entry entry j) file log
        (line entries entry (Reads-load_entries codec file log.reads) g)
        (confirmed-AllNumbered entry j entries (subst (λ i. get i entries ≡ some entry) k at)
          log.numbered)

  Edits-IsLog : {file : Option Text} → Edits codec file → IsLog codec file
  unfolding new_draft confirm contents is_ended split_lines read_lines AllNumbered load_from get
  Edits-IsLog no_file = record {
    entries = [];
    reads = record { ended = refl; lines = refl };
    numbered = λ id entry h. cc;
  }
  Edits-IsLog (drafted {file} {after} draft id long line h edits) =
      let log = Edits-IsLog edits in
      let (entries, read, returned) = >>=-eq-ok (load_entries codec file) _ h in
      let same : entries ≡ load_from [] log.entries =
        cc (Reads-load_entries codec file log.reads) in
      let result : draft_unless_known codec draft (load_from [] log.entries) file
            (known_draft draft.fingerprint (load_from [] log.entries))
          ≡ (id, after) =
        cc in
      subst (λ (x : Text × Option Text). IsLog codec x.1) result
        (drafted-IsLog draft file log (known_draft draft.fingerprint (load_from [] log.entries))
          long line)
  Edits-IsLog (confirmed {file} {after} id j found line h edits) =
      let log = Edits-IsLog edits in
      let (entries, read, returned) = >>=-eq-ok (load_entries codec file) _ h in
      let same : entries ≡ load_from [] log.entries =
        cc (Reads-load_entries codec file log.reads) in
      let result : confirm_found codec j file (find_entry id (load_from [] log.entries))
          ≡ (found, after) =
        cc in
      subst (λ (x : Bool × Option Text). IsLog codec x.1) result
        (confirmed-IsLog id j file log (find_entry id (load_from [] log.entries)) refl line)

-- One of the entries.
unfoldable pub IsEntry : Entry → Dict Text Entry → Type 0
IsEntry entry [] = ⊥
IsEntry entry ((_, x) ∷ entries) = (entry ≡ x) ⊎ IsEntry entry entries

-- What new_draft does: it returns the id of an entry with the draft's fingerprint and leaves the file, or there
-- is no such entry, and the file then reads as before with the draft under an id that no entry had.
pub data IsFiled (codec : Codec) (draft : Draft) (file : Option Text) (entries : Dict Text Entry)
    : Text × Option Text → Type 0 where
  known :
      (fingerprint : Text) (entry : Entry) (id : Text)
      → draft.fingerprint ≡ some fingerprint
      → IsEntry entry entries
      → entry.fingerprint ≡ some fingerprint
      → entry.id ≡ id
      → IsFiled codec draft file entries (id, file)
  filed :
      (id : Text) (after : Option Text)
      → ((fingerprint : Text) (entry : Entry)
          → draft.fingerprint ≡ some fingerprint
          → IsEntry entry entries
          → (entry.fingerprint == some fingerprint) ≡ false)
      → get id entries ≡ none
      → load_entries codec after ≡ ok (put id (draft_entry id draft) entries)
      → IsFiled codec draft file entries (id, after)

same_fingerprint : (o : Option Text) (s : Text) → (o == some s) ≡ true → o ≡ some s
same_fingerprint o s h = ground arith

find_fingerprint-some :
    (fingerprint : Text) (entries : Dict Text Entry) {id : Text}
    → find_fingerprint fingerprint entries ≡ some id
    → (entry : Entry) × IsEntry entry entries
      × (entry.fingerprint ≡ some fingerprint)
      × (entry.id ≡ id)
unfolding find_fingerprint IsEntry
find_fingerprint-some fingerprint [] h = cc
find_fingerprint-some fingerprint ((key, x) ∷ entries) {id} h =
    elim (Bool-cases (x.fingerprint == some fingerprint)) [
      | inl here ↦
          (x, inl refl, same_fingerprint x.fingerprint fingerprint here, ground (arith, h, here))
      | inr not_here ↦
          let (entry, at, e, i) =
            find_fingerprint-some fingerprint entries {id = id} (ground (arith, h, not_here)) in
          (entry, inr at, e, i)
    ]

find_fingerprint-none :
    (fingerprint : Text) (entries : Dict Text Entry) (entry : Entry)
    → find_fingerprint fingerprint entries ≡ none
    → IsEntry entry entries
    → (entry.fingerprint == some fingerprint) ≡ false
unfolding find_fingerprint IsEntry
find_fingerprint-none fingerprint [] entry h i = absurd i
find_fingerprint-none fingerprint ((key, x) ∷ entries) entry h (inl same) =
    subst (λ (y : Entry). (y.fingerprint == some fingerprint) ≡ false) (sym same)
      (ground (arith, h))
find_fingerprint-none fingerprint ((key, x) ∷ entries) entry h (inr i) =
    find_fingerprint-none fingerprint entries entry (ground (arith, h)) i

known_draft-some :
    (o : Option Text) (entries : Dict Text Entry) {id : Text}
    → known_draft o entries ≡ some id
    → (fingerprint : Text) × (o ≡ some fingerprint)
      × (find_fingerprint fingerprint entries ≡ some id)
unfolding known_draft
known_draft-some none entries e = cc
known_draft-some (some fingerprint) entries e = (fingerprint, refl, e)

module _ (codec : Codec) (draft : Draft) (file : Option Text) (log : IsLog codec file)
    (long : 10 ≤ length draft.ts) (line : CanBeFiled codec draft file) where
  unless_known-IsFiled :
      (o : Option Text)
      → known_draft draft.fingerprint (load_from [] log.entries) ≡ o
      → IsFiled codec draft file
          (load_from [] log.entries)
          (draft_unless_known codec draft (load_from [] log.entries) file o)
  unfolding draft_unless_known draft_entry known_draft
  unless_known-IsFiled (some id) h =
      let entries = load_from [] log.entries in
      let (fingerprint, given, found) = known_draft-some draft.fingerprint entries {id = id} h in
      let (entry, at, e, i) = find_fingerprint-some fingerprint entries {id = id} found in
      known fingerprint entry id given at e i
  unless_known-IsFiled none h =
      let entries = load_from [] log.entries in
      let day = take 10 draft.ts in
      let id = next_entry_id day entries in
      filed id (append_entry codec (draft_entry id draft) file)
        (λ fingerprint entry given at.
          find_fingerprint-none fingerprint entries entry
            (subst (λ (o : Option Text). known_draft o entries ≡ none) given h) at)
        (next_entry_id-fresh day entries (length-take 10 draft.ts long) log.numbered)
        (append_entry-load_entries codec (draft_entry id draft) file log.reads
          (line entries (Reads-load_entries codec file log.reads)))

-- In a review log that calls of new_draft and confirm made where there was no file, each draft
-- with a time of at least ten characters and each entry written in one line that is read back,
-- new_draft returns: the id of an entry with the fingerprint of the draft, and the file stays, or,
-- when the draft has no fingerprint or no entry has it, an id that no entry has, under which the
-- file then reads as the draft, its other entries as before.
pub new_draft-IsFiled :
    (codec : Codec) {file : Option Text}
    → Edits codec file
    → (draft : Draft) → 10 ≤ length draft.ts
    → CanBeFiled codec draft file
    → (entries : Dict Text Entry) × (result : Text × Option Text) × (load_entries codec file
        ≡ ok entries)
      × (new_draft codec draft file ≡ ok result)
      × IsFiled codec draft file entries result
unfolding new_draft
new_draft-IsFiled codec {file} edits draft long line =
    let log = Edits-IsLog codec edits in
    let read = Reads-load_entries codec file log.reads in
    (
      load_from [] log.entries,
      _,
      read,
      >>=-ok _ _ read refl,
      unless_known-IsFiled codec draft file log long line _ refl,
    )
