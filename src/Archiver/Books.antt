-- ===== src/Archiver/Books.antt =====
-- The numbers of rows that the archiver keeps, apart from the rows.
use openseafeed.Base.{
  ℕ, ◌+◌, ◌-◌, ◌≡◌, refl, ap, ◌∙◌, arith, List, [], ◌∷◌, length, length-append, length-drop, min,
  Bytes, Bool, true, false, ◌&&◌, ◌||◌, leb, ltb, Option, none, some, Bool-cases, inl, inr,
  if◌then◌else◌,
}
use openseafeed.Ais.Float.{Floats}
use openseafeed.Feed.Wire.{StreamMessage, Json}
use openseafeed.Snapshotter.{is_position_type, is_static_type}
use openseafeed.Archiver.{
  Archive, Answer, max_buffer, flush_rows, buffered, capped, tries, flush, flush_full, Event,
  message, no_message, tick, position_row, static_row, place_of, push_position, packet_of, collect,
  archive_round, archive,
}

pub record Books : Type 0 where
  pub waiting : ℕ
  pub written : ℕ
  pub dropped : ℕ

abbrev pub books_of : {F : Type 0} → Archive F → Books
books_of a = record { waiting = buffered a; written = a.written; dropped = a.dropped }

-- One try of the two in which both tables took their rows.
abbrev pub accepted : Answer × Answer → Bool
accepted (first, second) =
    (first.positions_ok && first.statics_ok) || (second.positions_ok && second.statics_ok)

-- A flush: all that waits is written when ClickHouse accepted it, and otherwise what is above the cap is dropped.
abbrev pub settled : (accepted : Bool) → Books → Books
settled true b = record { waiting = 0; written = b.written + b.waiting; dropped = b.dropped }
settled false b = record {
  waiting = min b.waiting max_buffer;
  written = b.written;
  dropped = b.dropped + (b.waiting - max_buffer);
}

abbrev pub settled_full : (accepted : Bool) → Books → Books
settled_full accepted b = if leb flush_rows b.waiting then settled accepted b else b

abbrev pub received : ℕ → Books → Books
received rows b = record b { waiting = b.waiting + rows }

abbrev pub count : {A : Type 0} → Option A → ℕ
count none = 0
count (some a) = 1

module _ (fl : Floats) (json : Json fl.F) where
  open fl use {F}
  open json use {Value}

  -- A report of a position of the globe is a row, and so are static data.
  abbrev pub rows_of : Event F Value → ℕ
  rows_of (message ts station sm answers) =
      if is_position_type fl json sm.message_type
      then count (place_of fl json (packet_of fl json sm))
      else if is_static_type fl json sm.message_type
      then 1
      else 0
  rows_of no_message = 0
  rows_of (tick answers) = 0

  abbrev pub all_rows : List (Event F Value) → ℕ
  all_rows [] = 0
  all_rows (event ∷ events) = rows_of event + all_rows events

  -- The books behind a round of the loop.
  abbrev pub booked : Event F Value → Books → Books
  booked (message ts station sm answers) b =
      settled_full (accepted answers) (received (rows_of (message ts station sm answers)) b)
  booked no_message b = b
  booked (tick answers) b = settled (accepted answers) b

  -- The books behind the loop and its last flush.
  abbrev pub all_booked : List (Event F Value) → (last : Answer × Answer) → Books → Books
  all_booked [] last b = settled (accepted last) b
  all_booked (event ∷ events) last b = all_booked events last (booked event b)

books_eq :
    {a b : Books} → a.waiting ≡ b.waiting → a.written ≡ b.written → a.dropped ≡ b.dropped → a ≡ b
books_eq p q r = λ i. record { waiting = p i; written = q i; dropped = r i }

books-capped : {F : Type 0} → (a : Archive F) → books_of (capped a) ≡ settled false (books_of a)
unfolding capped buffered
books-capped a = elim (Bool-cases (ltb max_buffer (buffered a))) [
  | inl over ↦
      let excess = buffered a - max_buffer in
      let cut = min excess (length a.positions) in
      let rest = min (excess - cut) (length a.statics) in
      rw (over, capped)
        (books_eq (ground (arith, over, length-drop cut a.positions, length-drop rest a.statics))
          refl refl)
  | inr fits ↦ rw (fits, capped) (books_eq (ground (arith, fits)) refl (ground (arith, fits)))
]

books-flush :
    {F : Type 0}
    → (answers : Answer × Answer) (a : Archive F)
    → books_of (flush answers a) ≡ settled (accepted answers) (books_of a)
unfolding flush tries buffered
books-flush (first, second) a = elim (Bool-cases (first.positions_ok && first.statics_ok)) [
  | inl taken ↦ rw (taken, tries, flush) refl
  | inr lost ↦ elim (Bool-cases (second.positions_ok && second.statics_ok)) [
    | inl taken ↦ rw (lost, taken, tries, flush) refl
    | inr again ↦ rw (lost, again, tries, flush) (books-capped a)
  ]
]

books-flush_full :
    {F : Type 0}
    → (answers : Answer × Answer) (a : Archive F)
    → books_of (flush_full answers a) ≡ settled_full (accepted answers) (books_of a)
unfolding flush_full
books-flush_full answers a = elim (Bool-cases (leb flush_rows (buffered a))) [
  | inl full ↦ rw (full, flush_full) (books-flush answers a)
  | inr few ↦ rw (few, flush_full) refl
]

module _ (fl : Floats) (to_f32 : fl.F → fl.F) (json : Json fl.F) where
  open fl use {F}
  open json use {Value}

  books-push_position :
      (ts station : Bytes) (sm : StreamMessage F Value) (p : Option Value) (place : Option (F × F))
      (a : Archive F)
      → books_of (push_position fl to_f32 json ts station sm p place a)
        ≡ received (count place) (books_of a)
  unfolding push_position buffered
  books-push_position ts station sm p none a = books_eq (omega arith) refl refl
  books-push_position ts station sm p (some (lat, lon)) a =
      books_eq
        (omega (
          arith,
          length-append a.positions (position_row fl to_f32 json ts station sm p lat lon ∷ []),
        ))
        refl refl

  books-collect :
      (ts station : Bytes) (sm : StreamMessage F Value) (answers : Answer × Answer) (a : Archive F)
      → books_of (collect fl to_f32 json ts station sm a)
        ≡ received (rows_of fl json (message ts station sm answers)) (books_of a)
  unfolding collect buffered
  books-collect ts station sm answers a =
      let p = packet_of fl json sm in
      elim (Bool-cases (is_position_type fl json sm.message_type)) [
        | inl position ↦
            rw (position, collect) (books-push_position ts station sm p (place_of fl json p) a)
        | inr other ↦ elim (Bool-cases (is_static_type fl json sm.message_type)) [
          | inl static ↦
              rw (other, static, collect)
                (books_eq
                  (omega (arith, length-append a.statics (static_row fl to_f32 json ts sm p ∷ [])))
                  refl refl)
          | inr neither ↦ rw (other, neither, collect) (books_eq (omega arith) refl refl)
        ]
      ]

  books-archive_round :
      (event : Event F Value) (a : Archive F)
      → books_of (archive_round fl to_f32 json event a) ≡ booked fl json event (books_of a)
  unfolding archive_round
  books-archive_round (message ts station sm answers) a =
      books-flush_full answers (collect fl to_f32 json ts station sm a)
      ∙ ap (settled_full (accepted answers)) (books-collect ts station sm answers a)
  books-archive_round no_message a = refl
  books-archive_round (tick answers) a = books-flush answers a

  pub books-archive :
      (events : List (Event F Value)) (last : Answer × Answer) (a : Archive F)
      → books_of (archive fl to_f32 json events last a)
        ≡ all_booked fl json events last (books_of a)
  unfolding archive
  books-archive [] last a = books-flush last a
  books-archive (event ∷ events) last a =
      books-archive events last (archive_round fl to_f32 json event a)
      ∙ ap (all_booked fl json events last) (books-archive_round event a)
