-- ===== src/Authority/Paging.antt =====
-- Pages of events: where a page starts, and that the next page goes on where it ended.
use hermes_quant_agent.Prelude.{
  ℕ, zero, suc, ◌+◌, List, [], ◌∷◌, ◌++◌, map, ◌≡◌, ◌≢◌, refl, sym, ap, ◌∙◌, arith, Option, none,
  some, Text, text_eq, ◌==◌, length, take, drop, Bool-cases, inl, inr,
}
use hermes_quant_agent.Prelude.Outcome.{ok, >>=-eq-ok}
use hermes_quant_agent.Authority.Event.{Record}
use hermes_quant_agent.Authority.Events.{
  WorkflowEventPage, public_event, indexes_of, after_only, page_start, next_cursor, page_of,
}

-- the id of the event at an index
unfoldable pub id_at : ℕ → List Record → Option Text
id_at n [] = none
id_at zero (r ∷ rest) = some r.event_id
id_at (suc n) (r ∷ rest) = id_at n rest

indexes_of-nil :
    (c : Text) (n : ℕ) (l : List Record) (k : ℕ) → indexes_of c n l ≡ [] → id_at k l ≢ some c
unfolding indexes_of id_at
indexes_of-nil c n [] k h = λ e. cc
indexes_of-nil c n (r ∷ l) zero h = λ e. ground arith
indexes_of-nil c n (r ∷ l) (suc k) h = elim (Bool-cases (r.event_id == c)) [
  | inl same ↦ λ e. ground arith
  | inr other ↦ indexes_of-nil c (n + 1) l k (ground arith)
]

-- Where one index is found, it is that of any record with the id.
indexes_of-only :
    (c : Text) (n : ℕ) (l : List Record) (i k : ℕ)
    → indexes_of c n l ≡ i ∷ []
    → id_at k l ≡ some c
    → n + k ≡ i
unfolding indexes_of id_at
indexes_of-only c n [] i k h e = cc
indexes_of-only c n (r ∷ l) i zero h e = ground arith
indexes_of-only c n (r ∷ l) i (suc k) h e = elim (Bool-cases (r.event_id == c)) [
  | inl same ↦ absurd (indexes_of-nil c (n + 1) l k (ground arith) e)
  | inr other ↦ omega (arith, indexes_of-only c (n + 1) l i k (ground arith) e)
]

after_only-eq : (l : List ℕ) {s : ℕ} → after_only l ≡ ok s → (i : ℕ) × (l ≡ i ∷ []) × (s ≡ i + 1)
unfolding after_only
after_only-eq [] h = cc
after_only-eq (i ∷ []) h = (i, refl, cc)
after_only-eq (i ∷ j ∷ l) h = cc

id_at-take :
    (k n : ℕ) (l : List Record) (c : Text) → id_at k (take n l) ≡ some c → id_at k l ≡ some c
unfolding id_at take
id_at-take k n [] c h = h
id_at-take k zero (r ∷ l) c h = cc
id_at-take zero (suc n) (r ∷ l) c h = h
id_at-take (suc k) (suc n) (r ∷ l) c h = id_at-take k n l c h

id_at-drop : (k n : ℕ) (l : List Record) → id_at k (drop n l) ≡ id_at (n + k) l
unfolding id_at drop
id_at-drop k n [] = refl
id_at-drop k zero (r ∷ l) = ap (λ (i : ℕ). id_at i (r ∷ l)) (omega arith)
id_at-drop k (suc n) (r ∷ l) = id_at-drop k n l ∙ ap (λ (i : ℕ). id_at i (r ∷ l)) (the_suc n k)
  where
    the_suc : (n k : ℕ) → suc (n + k) ≡ suc n + k
    the_suc n k = omega arith

next_cursor-id_at :
    (after : Option Text) (r : Record) (l : List Record)
    → next_cursor after (map public_event (r ∷ l)) ≡ id_at (length l) (r ∷ l)
unfolding next_cursor public_event id_at
next_cursor-id_at after r [] = refl
next_cursor-id_at after r (s ∷ l) = next_cursor-id_at (some r.event_id) s l

drop-drop : (i j : ℕ) (l : List Record) → drop j (drop i l) ≡ drop (i + j) l
unfolding drop
drop-drop i j [] = refl
drop-drop zero j (r ∷ l) = ap (λ (k : ℕ). drop k (r ∷ l)) (omega arith)
drop-drop (suc i) j (r ∷ l) = drop-drop i j l ∙ ap (λ (k : ℕ). drop k (r ∷ l)) (the_suc i j)
  where
    the_suc : (i j : ℕ) → suc (i + j) ≡ suc i + j
    the_suc i j = omega arith

take-take :
    (n m : ℕ) (l : List Record) → take n l ++ take m (drop (length (take n l)) l) ≡ take (n + m) l
unfolding take drop
take-take n m [] = refl
take-take zero m (r ∷ l) = ap (λ (k : ℕ). take k (r ∷ l)) (omega arith)
take-take (suc n) m (r ∷ l) =
    ap (λ (z : List Record). r ∷ z) (take-take n m l) ∙ ap (λ (k : ℕ). take k (r ∷ l)) (the_suc n m)
  where
    the_suc : (n m : ℕ) → suc (n + m) ≡ suc n + m
    the_suc n m = omega arith

map-append :
    (xs ys : List Record) → map public_event (xs ++ ys) ≡ map public_event xs ++ map public_event ys
map-append [] ys = refl
map-append (x ∷ xs) ys = ap (λ z. public_event x ∷ z) (map-append xs ys)

-- Where a page that starts after `after` starts.
abbrev pub StartsAfter : Option Text → ℕ → List Record → Type 0
StartsAfter none start records = start ≡ 0
StartsAfter (some c) start records =
    (i : ℕ) × (start ≡ i + 1) × ((k : ℕ) → id_at k records ≡ some c → k ≡ i)

page_start-StartsAfter :
    (after : Option Text) (records : List Record) {s : ℕ}
    → page_start after records ≡ ok s
    → StartsAfter after s records
unfolding page_start
page_start-StartsAfter none records h = cc
page_start-StartsAfter (some c) records h =
    let (i, found, eq) = after_only-eq (indexes_of c 0 records) h in
    (i, eq, λ k e. omega (arith, indexes_of-only c 0 records i k found e))

-- What a page holds.
pub record IsPage (after : Option Text) (limit : ℕ) (records : List Record)
    (page : WorkflowEventPage) : Type 0 where
  pub start : ℕ
  pub starts : StartsAfter after start records
  pub events : page.events ≡ map public_event (take limit (drop start records))
  pub next : page.next_after_event_id ≡ next_cursor after page.events

pub page_of-IsPage :
    (after : Option Text) (limit : ℕ) (records : List Record) {page : WorkflowEventPage}
    → page_of after limit records ≡ ok page
    → IsPage after limit records page
unfolding page_of
page_of-IsPage after limit records {page} h =
    let (s, started, rest) = >>=-eq-ok (page_start after records) _ h in
    record {
      start = s;
      starts = page_start-StartsAfter after records started;
      events = cc;
      next = cc;
    }

-- The last event of a page stands where the page ends.
last-at :
    (after : Option Text) (selected records : List Record) (start limit : ℕ) (c : Text)
    → selected ≡ take limit (drop start records)
    → selected ≢ []
    → next_cursor after (map public_event selected) ≡ some c
    → (k : ℕ) × (start + length selected ≡ k + 1) × (id_at k records ≡ some c)
last-at after [] records start limit c e ne h = absurd (ne refl)
last-at after (r ∷ l) records start limit c e ne h = (
  start + length l,
  omega arith,
  sym (id_at-drop (length l) start records)
      ∙ id_at-take (length l) limit (drop start records) c
          (ap (id_at (length l)) (sym e) ∙ sym (next_cursor-id_at after r l) ∙ h),
)

map-empty : (l : List Record) → map public_event l ≢ [] → l ≢ []
map-empty [] h = λ e. h refl
map-empty (r ∷ l) h = λ e. cc

-- The page that is asked for with the cursor of a page that has events goes on where that page ended: the two
-- pages together are what one page of both sizes would have been.
pub page_of-consecutive :
    (after : Option Text) (limit more : ℕ) (c : Text) (records : List Record)
    (first second : WorkflowEventPage)
    → page_of after limit records ≡ ok first
    → first.events ≢ []
    → first.next_after_event_id ≡ some c
    → page_of (some c) more records ≡ ok second
    → (start : ℕ) × StartsAfter after start records
      × (first.events ++ second.events
          ≡ map public_event (take (limit + more) (drop start records)))
page_of-consecutive after limit more c records first second h ne next g =
    let p : IsPage after limit records first = page_of-IsPage after limit records h in
    let q : IsPage (some c) more records second = page_of-IsPage (some c) more records g in
    let l : List Record = take limit (drop p.start records) in
    let (i, starts, only) = q.starts in
    let cursor : next_cursor after (map public_event l) ≡ some c =
      ap (next_cursor after) (sym p.events) ∙ sym p.next ∙ next in
    let (k, ends, at) =
      last-at after l records p.start limit c refl (map-empty l (λ e. ne (p.events ∙ e))) cursor in
    let goes_on : q.start ≡ p.start + length l = omega (arith, only k at) in
    let rest : second.events
        ≡ map public_event (take more (drop (length l) (drop p.start records))) =
      q.events
      ∙ ap (λ (s : ℕ). map public_event (take more (drop s records))) goes_on
      ∙ ap (λ z. map public_event (take more z)) (sym (drop-drop p.start (length l) records)) in
    (
      p.start,
      p.starts,
      ap (λ z. z ++ second.events) p.events
          ∙ ap (λ z. map public_event l ++ z) rest
          ∙ sym (map-append l (take more (drop (length l) (drop p.start records))))
          ∙ ap (map public_event) (take-take limit more (drop p.start records)),
    )
