-- ===== src/Governance/Numbers.antt =====
-- hqa/reviewlog.py: the entries that are numbered within their day, and what one entry changes of them.
use hermes_quant_agent.Prelude.{
  same_text, ℕ, zero, suc, ◌+◌, ◌≤◌, ◌≡◌, refl, sym, ap, ◌∙◌, subst, arith, inl, inr, Option-cases,
  Bool-cases, List, [], ◌∷◌, ◌++◌, Bool, true, none, some, Text, text_eq, take, length, ◌==◌,
  is_some, if◌then◌else◌,
}
use hermes_quant_agent.Prelude.Dict.{Dict, get, put, get-put}
use hermes_quant_agent.Patterns.{strip_prefix}
use hermes_quant_agent.Patterns.Laws.{strip_prefix-append}
use hermes_quant_agent.Predictions.Values.{render_id, three_digits}
use hermes_quant_agent.Predictions.Numbering.{render_id_injective}
use hermes_quant_agent.Governance.Reviews.{
  Entry, load_from, count_day, Draft, draft_entry, next_entry_id, Judgment, confirmed_entry,
  find_entry,
}

pub load_from-snoc :
    (by_id : Dict Text Entry) (lines : List Entry) (entry : Entry)
    → load_from by_id (lines ++ entry ∷ []) ≡ put entry.id entry (load_from by_id lines)
unfolding load_from
load_from-snoc by_id [] entry = refl
load_from-snoc by_id (line ∷ lines) entry = load_from-snoc (put line.id line by_id) lines entry

-- An entry that is numbered within its day.
pub record Numbered (id : Text) (entry : Entry) (entries : Dict Text Entry) : Type 0 where
  pub key : id ≡ entry.id
  pub day : Text
  pub sequence : ℕ
  pub dated : length day ≡ 10
  pub rendered : entry.id ≡ render_id day sequence
  pub counted : sequence ≤ count_day day entries

unfoldable pub AllNumbered : Dict Text Entry → Type 0
AllNumbered entries =
    (id : Text) (entry : Entry) → get id entries ≡ some entry → Numbered id entry entries

count_day-put_new :
    (day id : Text) (entry : Entry) (entries : Dict Text Entry)
    → get id entries ≡ none
    → count_day day (put id entry entries)
      ≡ count_day day entries + (if is_some (strip_prefix day entry.id) then 1 else 0)
unfolding count_day put get
count_day-put_new day id entry [] h = ground arith
count_day-put_new day id entry ((key, e) ∷ entries) h =
    ground (arith, count_day-put_new day id entry entries)

count_day-put_same :
    (day id : Text) (entry : Entry) (entries : Dict Text Entry) {old : Entry}
    → get id entries ≡ some old
    → entry.id ≡ old.id
    → count_day day (put id entry entries) ≡ count_day day entries
unfolding count_day put get
count_day-put_same day id entry [] h e = cc
count_day-put_same day id entry ((key, x) ∷ entries) {old} h e =
    ground (arith, count_day-put_same day id entry entries {old = old})

-- Texts that start with days of the same length start with the same day.
same_day : (s t u v : Text) → length s ≡ length t → s ++ u ≡ t ++ v → s ≡ t
same_day [] [] u v l e = refl
same_day [] (d ∷ t) u v l e = cc
same_day (c ∷ s) [] u v l e = cc
same_day (c ∷ s) (d ∷ t) u v l e =
    let heads : c ≡ d = cc in let tails : s ≡ t = same_day s t u v (omega (arith, l)) (cc) in cc

pub length-take {ℓ} : {A : Type ℓ} (n : ℕ) (xs : List A) → n ≤ length xs → length (take n xs) ≡ n
unfolding take
length-take zero [] h = refl
length-take (suc n) [] h = absurd (omega arith)
length-take zero (x ∷ xs) h = refl
length-take (suc n) (x ∷ xs) h = omega (arith, length-take n xs)

same_id_day :
    (d e : Text) (n m : ℕ)
    → length d ≡ 10
    → length e ≡ 10
    → render_id d n ≡ render_id e m
    → (d ≡ e) × (n ≡ m)
unfolding render_id
same_id_day d e n m p q same =
    let days : d ≡ e =
      same_day d e (b'-' ∷ three_digits n) (b'-' ∷ three_digits m) (p ∙ sym q) same in
    (days, render_id_injective d n m (same ∙ ap (λ x. render_id x m) (sym days)))

module _ (day : Text) (entries : Dict Text Entry) (dated : length day ≡ 10)
    (numbered : AllNumbered entries) where
  -- The id that the next draft of the day takes is the id of no entry.
  pub next_entry_id-fresh : get (next_entry_id day entries) entries ≡ none
  unfolding AllNumbered next_entry_id
  next_entry_id-fresh = elim (Option-cases (get (next_entry_id day entries) entries)) [
    | inl absent ↦ absent
    | inr (entry, found) ↦
        let k = numbered (next_entry_id day entries) entry found in
        let (days, sequences) =
          same_id_day day k.day (count_day day entries + 1) k.sequence dated k.dated
            (k.key ∙ k.rendered) in
        let counted : k.sequence ≤ count_day day entries =
          subst (λ d. k.sequence ≤ count_day d entries) (sym days) k.counted in
        absurd (omega (arith, counted, sequences))
  ]

unfoldable pub Keyed : Dict Text Entry → Type 0
Keyed [] = Unit
Keyed ((key, entry) ∷ entries) = (key ≡ entry.id) × Keyed entries

Keyed-put :
    (entry : Entry) (entries : Dict Text Entry) → Keyed entries → Keyed (put entry.id entry entries)
unfolding Keyed put
Keyed-put entry [] k = (refl, tt)
Keyed-put entry ((key, x) ∷ entries) k = ground (arith, Keyed-put entry entries)

pub load_from-Keyed :
    (by_id : Dict Text Entry) (lines : List Entry) → Keyed by_id → Keyed (load_from by_id lines)
unfolding load_from
load_from-Keyed by_id [] k = k
load_from-Keyed by_id (line ∷ lines) k =
    load_from-Keyed (put line.id line by_id) lines (Keyed-put line by_id k)

pub find_entry-get :
    (id : Text) (entries : Dict Text Entry) → Keyed entries → find_entry id entries ≡ get id entries
unfolding find_entry get Keyed
find_entry-get id [] k = refl
find_entry-get id ((key, x) ∷ entries) k = ground (arith, k, find_entry-get id entries)

recount :
    (id : Text) (x : Entry) (before after : Dict Text Entry)
    → ((day : Text) → count_day day before ≤ count_day day after)
    → Numbered id x before
    → Numbered id x after
recount id x before after more n = record {
  key = n.key;
  day = n.day;
  sequence = n.sequence;
  dated = n.dated;
  rendered = n.rendered;
  counted = omega (arith, n.counted, more n.day);
}

AllNumbered-put :
    (entry : Entry) (entries : Dict Text Entry)
    → ((day : Text) → count_day day entries ≤ count_day day (put entry.id entry entries))
    → Numbered entry.id entry (put entry.id entry entries)
    → AllNumbered entries
    → AllNumbered (put entry.id entry entries)
unfolding AllNumbered
AllNumbered-put entry entries more n all id x h = elim (Bool-cases (id == entry.id)) [
  | inl same ↦
      let stored : get id (put entry.id entry entries) ≡ some entry =
        ground (arith, get-put id entry.id entry entries, same) in
      let one : entry ≡ x = cc in
      subst (λ k. Numbered k x (put entry.id entry entries)) (sym (same_text id entry.id same))
        (subst (λ y. Numbered entry.id y (put entry.id entry entries)) one n)
  | inr differ ↦
      recount id x entries (put entry.id entry entries) more
        (all id x (ground (arith, get-put id entry.id entry entries, differ, h)))
]

more_than : (n b : ℕ) (f : Bool) → b ≡ n + (if f then 1 else 0) → n ≤ b
more_than n b f e = ground (arith, e)

starts : (day : Text) (n : ℕ) → is_some (strip_prefix day (render_id day n)) ≡ true
unfolding render_id
starts day n = rw (strip_prefix-append day (b'-' ∷ three_digits n))

one_more : (n b : ℕ) (f : Bool) → b ≡ n + (if f then 1 else 0) → f ≡ true → n + 1 ≤ b
one_more n b f e t = ground (arith, e, t)

-- A draft under the next id of its day.
pub drafted-AllNumbered :
    (draft : Draft) (entries : Dict Text Entry)
    → 10 ≤ length draft.ts
    → AllNumbered entries
    → (let entry = draft_entry (next_entry_id (take 10 draft.ts) entries) draft in
        AllNumbered (put entry.id entry entries))
unfolding draft_entry next_entry_id
drafted-AllNumbered draft entries long all =
    let day = take 10 draft.ts in
    let id = next_entry_id day entries in
    let entry = draft_entry id draft in
    let dated = length-take 10 draft.ts long in
    let absent = next_entry_id-fresh day entries dated all in
    let counted = λ (d : Text). count_day-put_new d id entry entries absent in
    AllNumbered-put entry entries
      (λ d. more_than (count_day d entries) _ (is_some (strip_prefix d id)) (counted d))
      (record {
        key = refl;
        day = day;
        sequence = count_day day entries + 1;
        dated = dated;
        rendered = refl;
        counted =
            one_more (count_day day entries) _ (is_some (strip_prefix day id)) (counted day)
              (starts day (count_day day entries + 1));
      })
      all

pub confirmed-AllNumbered :
    (old : Entry) (j : Judgment) (entries : Dict Text Entry)
    → get old.id entries ≡ some old
    → AllNumbered entries
    → AllNumbered (put old.id (confirmed_entry old j) entries)
unfolding confirmed_entry AllNumbered
confirmed-AllNumbered old j entries found all =
    let entry = confirmed_entry old j in
    let same = λ (d : Text). count_day-put_same d old.id entry entries {old = old} found refl in
    let n = all old.id old found in
    AllNumbered-put entry entries (λ d. omega (arith, same d))
      (record {
        key = refl;
        day = n.day;
        sequence = n.sequence;
        dated = n.dated;
        rendered = n.rendered;
        counted = omega (arith, n.counted, same n.day);
      })
      all
