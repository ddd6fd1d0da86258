-- ===== src/Archiver/Balance.antt =====
-- What becomes of the rows.
use openseafeed.Base.{
  ℕ, ◌+◌, ◌≤◌, ◌≡◌, refl, ◌∙◌, sym, subst, arith, List, [], ◌∷◌, Bool, true, false, leb, Bool-cases,
  inl, inr,
}
use openseafeed.Ais.Float.{Floats}
use openseafeed.Feed.Wire.{Json}
use openseafeed.Archiver.{
  Archive, Answer, max_buffer, flush_rows, buffered, Event, message, no_message, tick, archive,
}
use openseafeed.Archiver.Books.{
  Books, books_of, accepted, settled, settled_full, received, rows_of, all_rows, booked, all_booked,
  books-archive,
}

-- The rows that were collected: written, dropped or in the buffer.
abbrev sum : Books → ℕ
sum b = b.written + b.dropped + b.waiting

abbrev IsWithin : (n : ℕ) → Books → Type 0
IsWithin n b = (sum b ≡ n) × (b.waiting ≤ max_buffer)

settled-IsWithin : (taken : Bool) (b : Books) → IsWithin (sum b) (settled taken b)
settled-IsWithin true b = (omega arith, omega arith)
settled-IsWithin false b = (omega arith, omega arith)

settled_full-IsWithin : (taken : Bool) (b : Books) → IsWithin (sum b) (settled_full taken b)
settled_full-IsWithin taken b = elim (Bool-cases (leb flush_rows b.waiting)) [
  | inl full ↦ rw full (settled-IsWithin taken b)
  | inr few ↦ rw few (refl, ground arith)
]

abbrev pub total : {F : Type 0} → Archive F → ℕ
total a = a.written + a.dropped + buffered a

-- No row more or less, and not too many in the buffer.
abbrev pub IsKept : {F : Type 0} → (n : ℕ) → Archive F → Type 0
IsKept n a = (total a ≡ n) × (buffered a ≤ max_buffer)

module _ (fl : Floats) (json : Json fl.F) where
  open fl use {F}
  open json use {Value}

  booked-IsWithin :
      (event : Event F Value) (b : Books)
      → b.waiting ≤ max_buffer
      → IsWithin (sum b + rows_of fl json event) (booked fl json event b)
  booked-IsWithin (message ts station sm answers) b h =
      let rows = rows_of fl json (message ts station sm answers) in
      let (same, fits) = settled_full-IsWithin (accepted answers) (received rows b) in
      (same ∙ omega arith, fits)
  booked-IsWithin no_message b h = (omega arith, h)
  booked-IsWithin (tick answers) b h =
      let (same, fits) = settled-IsWithin (accepted answers) b in (same ∙ omega arith, fits)

  all_booked-IsWithin :
      (events : List (Event F Value)) (last : Answer × Answer) (b : Books)
      → b.waiting ≤ max_buffer
      → IsWithin (sum b + all_rows fl json events) (all_booked fl json events last b)
  all_booked-IsWithin [] last b h =
      let (same, fits) = settled-IsWithin (accepted last) b in (same ∙ omega arith, fits)
  all_booked-IsWithin (event ∷ events) last b h =
      let (step, within) = booked-IsWithin event b h in
      let (same, fits) = all_booked-IsWithin events last (booked fl json event b) within in
      (omega (arith, same, step), fits)

module _ (fl : Floats) (to_f32 : fl.F → fl.F) (json : Json fl.F) where
  open fl use {F}
  open json use {Value}

  -- From a buffer within its cap, whatever ClickHouse answers: the numbers of rows that wait, were written and were
  -- dropped are those of the books, where a flush is due at 5,000 rows and at each tick, and it writes all that waits when both
  -- tables take their rows in one of its two tries, and otherwise writes none and drops what is above 200,000 rows. At the end
  -- each row that was collected has been written, dropped or is in the buffer, and no more than 200,000 rows are
  -- there.
  pub archive-IsKept :
      (events : List (Event F Value)) (last : Answer × Answer) (a : Archive F)
      → buffered a ≤ max_buffer
      → IsKept (total a + all_rows fl json events) (archive fl to_f32 json events last a)
        × (books_of (archive fl to_f32 json events last a)
            ≡ all_booked fl json events last (books_of a))
  archive-IsKept events last a h =
      let kept = books-archive fl to_f32 json events last a in
      (
        subst (IsWithin (total a + all_rows fl json events)) (sym kept)
            (all_booked-IsWithin fl json events last (books_of a) h),
        kept,
      )
