-- ===== src/Governance/Filing.antt =====
-- hqa/reviewlog.py: what one appended entry changes of the entries that a file reads as.
use hermes_quant_agent.Prelude.{
  ◌≡◌, refl, sym, ap, ◌∙◌, arith, List, [], ◌∷◌, ◌++◌, Bool, true, false, Option, some, Text,
  text_eq,
}
use hermes_quant_agent.Prelude.Dict.{put}
use hermes_quant_agent.Prelude.Outcome.{Result, ok, ◌>>=◌, >>=-ok, >>=-eq-ok}
use hermes_quant_agent.Texts.{strip}
use hermes_quant_agent.Governance.Lines.{
  contents, split_lines, is_separator, is_ended, in_one_line, split_lines-append, split_lines-line,
  is_ended-line, newline-separates,
}
use hermes_quant_agent.Governance.Reviews.{
  Entry, load_from, Codec, loaded, is_empty, ReviewError, read_line, read_lines, load_entries,
  append_entry,
}
use hermes_quant_agent.Governance.Numbers.{load_from-snoc}

-- The entry is written as one line that is read back.
pub record IsLine (codec : Codec) (entry : Entry) : Type 0 where
  pub one_line : in_one_line is_separator (codec.dumps entry) ≡ true
  pub not_blank : is_empty (strip (codec.dumps entry)) ≡ false
  pub read_back : codec.loads (codec.dumps entry) ≡ some entry

-- The lines of the file are the entries, and the last one is ended.
pub record Reads (codec : Codec) (file : Option Text) (entries : List Entry) : Type 0 where
  pub ended : is_ended is_separator (contents file) ≡ true
  pub lines : read_lines codec (split_lines is_separator (contents file)) ≡ ok entries

module _ (codec : Codec) where
  read_line-append :
      (line : Text) (blank : Bool) (rest longer : Result ReviewError (List Entry))
      {es fs : List Entry}
      → read_line codec line blank rest ≡ ok es
      → ((later : List Entry) → rest ≡ ok later → longer ≡ ok (later ++ fs))
      → read_line codec line blank longer ≡ ok (es ++ fs)
  unfolding read_line
  read_line-append line true rest longer {es} h k = k es h
  read_line-append line false rest longer {es} {fs} h k =
      let (entry, read, h1) = >>=-eq-ok (loaded (codec.loads line)) _ h in
      let (later, others, h2) = >>=-eq-ok rest _ h1 in
      let all : es ≡ entry ∷ later = cc in
      >>=-ok _ _ read
        (>>=-ok _ _ (k later others) (ap (λ (xs : List Entry). ok (xs ++ fs)) (sym all)))

  read_lines-append :
      (xs ys : List Text) {es fs : List Entry}
      → read_lines codec xs ≡ ok es
      → read_lines codec ys ≡ ok fs
      → read_lines codec (xs ++ ys) ≡ ok (es ++ fs)
  unfolding read_lines ◌>>=◌
  read_lines-append [] ys h k = ground (arith, h, k)
  read_lines-append (line ∷ xs) ys {es} {fs} h k =
      read_line-append line (is_empty (strip line)) (read_lines codec xs) _ h
        (λ later e. read_lines-append xs ys e k)

  read_lines-one :
      (entry : Entry)
      → IsLine codec entry
      → read_lines codec (codec.dumps entry ∷ []) ≡ ok (entry ∷ [])
  unfolding read_lines read_line ◌>>=◌
  read_lines-one entry h = ground (arith, h.not_blank, h.read_back)

  pub append_entry-Reads :
      (entry : Entry) (file : Option Text) {entries : List Entry}
      → Reads codec file entries
      → IsLine codec entry
      → Reads codec (append_entry codec entry file) (entries ++ entry ∷ [])
  unfolding append_entry contents
  append_entry-Reads entry file r h = record {
    ended = is_ended-line is_separator (contents file) (codec.dumps entry) b'\n' newline-separates;
    lines =
        ap (read_lines codec) (
          split_lines-append is_separator (contents file) (codec.dumps entry ++ b'\n' ∷ []) r.ended
          ∙ ap (λ (ls : List Text). split_lines is_separator (contents file) ++ ls)
              (split_lines-line is_separator (codec.dumps entry) b'\n' h.one_line
                newline-separates))
        ∙ read_lines-append (split_lines is_separator (contents file)) _ r.lines
            (read_lines-one entry h);
  }

  pub Reads-load_entries :
      (file : Option Text) {entries : List Entry}
      → Reads codec file entries
      → load_entries codec file ≡ ok (load_from [] entries)
  unfolding load_entries
  Reads-load_entries file r = >>=-ok _ _ r.lines refl

  pub append_entry-load_entries :
      (entry : Entry) (file : Option Text) {entries : List Entry}
      → Reads codec file entries
      → IsLine codec entry
      → load_entries codec (append_entry codec entry file)
        ≡ ok (put entry.id entry (load_from [] entries))
  append_entry-load_entries entry file {entries} r h =
      Reads-load_entries (append_entry codec entry file) (append_entry-Reads entry file r h)
      ∙ ap ok (load_from-snoc [] entries entry)
