-- ===== src/Worker/Queue/Bounds.antt =====
-- The queue's bound, its permits, and the order of its lines.
use openseafeed.Base.{
  ℕ, zero, suc, ◌+◌, ◌-◌, ◌≤◌, ◌<◌, ◌≡◌, ◌⊎◌, refl, ap, ◌∙◌, arith, List, [], ◌∷◌, ◌++◌, length,
  drop, take, Bytes, Bool, true, false, ◌==◌, ◌&&◌, ltb, leb, if◌then◌else◌, length-append,
  append_assoc, append-nil, Bool-cases, inl, inr, max,
}
use openseafeed.Worker.Queue.{
  LineQueue, new, push, pop_front, Taken, line, nothing, panic, take_line, try_pop, Batch, lines,
  waits, panics, drain, recv_batch,
}

-- A permit for each line, and no more lines than the queue may hold.
pub record IsQueue (q : LineQueue) : Type 0 where
  pub permits : q.items ≡ length q.inner
  pub bounded : length q.inner ≤ q.capacity
  pub room : 1 ≤ q.capacity

pub new-IsQueue : (capacity : ℕ) → 1 ≤ capacity → IsQueue (new capacity)
unfolding new
new-IsQueue capacity h = record { permits = refl; bounded = omega arith; room = h }

length-pop_front : (xs : List Bytes) → length (pop_front xs) ≡ length xs - 1
length-pop_front [] = omega arith
length-pop_front (x ∷ xs) = omega arith

-- A push keeps a permit for each line of a queue that has room for one: it drops the oldest line, and
-- says so, exactly when the queue is full, and the new line is the last.
pub push-IsQueue :
    (q : LineQueue) (text : Bytes)
    → IsQueue q
    → IsQueue (push q text).0
      × ((push q text).1 ≡ leb q.capacity (length q.inner))
      × ((push q text).0.inner
          ≡ (if leb q.capacity (length q.inner) then pop_front q.inner else q.inner) ++ text ∷ [])
unfolding push
push-IsQueue q text valid = elim (Bool-cases (leb q.capacity (length q.inner))) [
  | inl full ↦ rw full (
    record {
      permits = omega (
        arith,
        valid.permits,
        length-append (pop_front q.inner) (text ∷ []),
        length-pop_front q.inner,
        le_of full,
      );
      bounded = omega (
        arith,
        valid.bounded,
        length-append (pop_front q.inner) (text ∷ []),
        length-pop_front q.inner,
        valid.room,
      );
      room = valid.room;
    },
    refl,
    refl,
  )
  | inr free ↦ rw free (
    record {
      permits = omega (arith, valid.permits, length-append q.inner (text ∷ []));
      bounded = ground (arith, free, length-append q.inner (text ∷ []));
      room = valid.room;
    },
    refl,
    refl,
  )
]
  where
    le_of : leb q.capacity (length q.inner) ≡ true → 1 ≤ length q.inner
    le_of full = ground (arith, full, valid.room)

-- The bytes that lines take, each with its line end.
abbrev pub size : List Bytes → ℕ
size [] = 0
size (x ∷ xs) = length x + 1 + size xs

-- A queue with a permit for each of its lines.
abbrev pub holding : ℕ → List Bytes → LineQueue
holding capacity xs = record { inner = xs; items = length xs; capacity = capacity }

holding_of : (q : LineQueue) → q.items ≡ length q.inner → q ≡ holding q.capacity q.inner
holding_of q permits = λ i. record q { items = permits i }

try_pop-empty : (c : ℕ) → try_pop (holding c []) ≡ (holding c [], nothing)
unfolding try_pop
try_pop-empty c = refl

try_pop-line :
    (c : ℕ) (x : Bytes) (xs : List Bytes) → try_pop (holding c (x ∷ xs)) ≡ (holding c xs, line x)
unfolding try_pop take_line
try_pop-line c x xs =
    let some_line : (suc (length xs) == 0) ≡ false = ground arith in
    let one_less : suc (length xs) - 1 ≡ length xs = omega arith in rw (some_line, one_less) refl

-- Why a batch of `k` of the lines that were queued ended: no line was left, or a bound was reached.
abbrev pub IsEnd : (max_lines max_bytes : ℕ) → List Bytes → (count bytes k : ℕ) → Type 0
IsEnd max_lines max_bytes queued count bytes k =
    (k ≡ length queued) ⊎ (max_lines ≤ count + k) ⊎ (max_bytes ≤ bytes + size (take k queued))

-- Every line of a batch but the first was taken while the lines before it took less than `max_bytes`.
abbrev pub IsWithin : (max_bytes : ℕ) → List Bytes → (k : ℕ) → Type 0
IsWithin max_bytes queued k = (k ≡ 1) ⊎ (size (take (k - 1) queued) < max_bytes)

abbrev Drains : (fuel max_lines max_bytes c : ℕ) → List Bytes → ℕ → List Bytes → Type 0
Drains fuel max_lines max_bytes c xs bytes batch =
    (k : ℕ) × (drain fuel max_lines max_bytes (holding c xs) bytes batch
      ≡ (holding c (drop k xs), lines (batch ++ take k xs)))
    × (k ≤ length xs)
    × (length batch + k ≤ max (length batch) max_lines)
    × ((k ≡ 0) ⊎ (bytes + size (take (k - 1) xs) < max_bytes))
    × IsEnd max_lines max_bytes xs (length batch) bytes k

module _ (fuel max_lines max_bytes c bytes : ℕ) (batch : List Bytes) where
  abbrev goes_on : Bool
  goes_on = ltb (length batch) max_lines && ltb bytes max_bytes

  -- A round, behind the `try_pop`.
  abbrev rest_of : LineQueue × Taken → LineQueue × Batch
  rest_of r = elim r.1 as (λ _. LineQueue × Batch) [
    | line next ↦
        drain fuel max_lines max_bytes r.0 (bytes + (length next + 1)) (batch ++ next ∷ [])
    | nothing ↦ (r.0, lines batch)
    | panic ↦ (r.0, panics)
  ]

  drain_full :
      (q : LineQueue)
      → goes_on ≡ false
      → drain (suc fuel) max_lines max_bytes q bytes batch ≡ (q, lines batch)
  unfolding drain
  drain_full q stop = rw stop refl

  drain_empty :
      goes_on ≡ true
      → drain (suc fuel) max_lines max_bytes (holding c []) bytes batch
        ≡ (holding c [], lines batch)
  unfolding drain
  drain_empty on = rw on (ap rest_of (try_pop-empty c))

  drain_line :
      (x : Bytes) (xs : List Bytes)
      → goes_on ≡ true
      → drain (suc fuel) max_lines max_bytes (holding c (x ∷ xs)) bytes batch
        ≡ drain fuel max_lines max_bytes (holding c xs) (bytes + (length x + 1)) (batch ++ x ∷ [])
  unfolding drain
  drain_line x xs on = rw on (ap rest_of (try_pop-line c x xs))

  stopped :
      (xs : List Bytes) → goes_on ≡ false → Drains (suc fuel) max_lines max_bytes c xs bytes batch
  stopped xs stop = (
    0,
    drain_full (holding c xs) stop ∙ rw append-nil refl,
    omega arith,
    omega arith,
    inl refl,
    ground (arith, stop),
  )

suc-sub_one : (k : ℕ) → suc k - 1 ≡ k
suc-sub_one k = omega arith

-- A line more in front.
size-take_cons :
    (x : Bytes) (xs : List Bytes) (k : ℕ)
    → size (take (suc (suc k) - 1) (x ∷ xs)) ≡ length x + 1 + size (take (suc k - 1) xs)
size-take_cons x xs k = rw (suc-sub_one (suc k), suc-sub_one k) refl

taken_before :
    (x : Bytes) (xs : List Bytes) (k bytes max_bytes : ℕ)
    → bytes < max_bytes
    → (k ≡ 0) ⊎ (bytes + (length x + 1) + size (take (k - 1) xs) < max_bytes)
    → bytes + size (take (suc k - 1) (x ∷ xs)) < max_bytes
taken_before x xs zero bytes max_bytes now before = omega (arith, now)
taken_before x xs (suc k) bytes max_bytes now (inl none_taken) = absurd (omega (arith, none_taken))
taken_before x xs (suc k) bytes max_bytes now (inr some_taken) =
    omega (arith, some_taken, size-take_cons x xs k)

drain-takes :
    (fuel max_lines max_bytes c : ℕ) (xs : List Bytes) (bytes : ℕ) (batch : List Bytes)
    → length xs < fuel
    → Drains fuel max_lines max_bytes c xs bytes batch
drain-takes zero max_lines max_bytes c xs bytes batch enough = absurd (omega arith)
drain-takes (suc fuel) max_lines max_bytes c [] bytes batch enough =
    elim (Bool-cases (goes_on fuel max_lines max_bytes c bytes batch)) [
      | inr stop ↦ stopped fuel max_lines max_bytes c bytes batch [] stop
      | inl on ↦ (
        0,
        drain_empty fuel max_lines max_bytes c bytes batch on ∙ rw append-nil refl,
        omega arith,
        omega arith,
        inl refl,
        inl refl,
      )
    ]
drain-takes (suc fuel) max_lines max_bytes c (x ∷ xs) bytes batch enough =
    let (k, out, within, few, below_bytes, end) =
      drain-takes fuel max_lines max_bytes c xs (bytes + (length x + 1)) (batch ++ x ∷ [])
        (omega arith) in
    let longer = length-append batch (x ∷ []) in
    elim (Bool-cases (goes_on fuel max_lines max_bytes c bytes batch)) [
      | inr stop ↦ stopped fuel max_lines max_bytes c bytes batch (x ∷ xs) stop
      | inl on ↦
          let below : length batch < max_lines = ground (arith, on) in
          let open_bytes : bytes < max_bytes = ground (arith, on) in
          (
            suc k,
            drain_line fuel max_lines max_bytes c bytes batch x xs on
                ∙ out
                ∙ rw (append_assoc batch (x ∷ []) (take k xs)) refl,
            omega arith,
            omega (arith, few, longer, below),
            inr (taken_before x xs k bytes max_bytes open_bytes below_bytes),
            elim end [
              | inl all ↦ inl (omega (arith, all))
              | inr (inl full) ↦ inr (inl (omega (arith, full, longer)))
              | inr (inr big) ↦ inr (inr (omega (arith, big)))
            ],
          )
    ]

taken_second :
    (x : Bytes) (xs : List Bytes) (k : ℕ) {max_bytes : ℕ}
    → length x + 1 + size (take (k - 1) xs) < max_bytes
    → IsWithin max_bytes (x ∷ xs) (suc k)
taken_second x xs zero low = inl refl
taken_second x xs (suc k) low = inr (omega (arith, low, size-take_cons x xs k))

-- `recv_batch`, behind the `pop`.
abbrev first_of : (max_lines max_bytes : ℕ) → LineQueue × Taken → LineQueue × Batch
first_of max_lines max_bytes r = elim r.1 as (λ _. LineQueue × Batch) [
  | line first ↦
      drain (length r.0.inner + 1) max_lines max_bytes r.0 (length first + 1) (first ∷ [])
  | nothing ↦ (r.0, waits)
  | panic ↦ (r.0, panics)
]

-- From a queue that holds a line, with a permit for each, `recv_batch` returns without waiting or a
-- panic. The batch is the oldest lines in order, one at least and at most `max_lines` (one, when that is
-- 0), and before the last of several, its lines took less than `max_bytes`; the others stay, with their permits. It ends only when no line is left, when it has `max_lines`,
-- or when its lines take `max_bytes` or more.
pub recv_batch-takes :
    (q : LineQueue) (max_lines max_bytes : ℕ)
    → q.items ≡ length q.inner
    → 1 ≤ length q.inner
    → (k : ℕ) × (recv_batch q max_lines max_bytes
        ≡ (holding q.capacity (drop k q.inner), lines (take k q.inner)))
      × (1 ≤ k)
      × (k ≤ length q.inner)
      × (k ≤ max 1 max_lines)
      × IsWithin max_bytes q.inner k
      × IsEnd max_lines max_bytes q.inner 0 0 k
recv_batch-takes q max_lines max_bytes permits some_line =
    rw (holding_of q permits) (go q.capacity q.inner some_line)
  where
    go :
        (c : ℕ) (xs : List Bytes)
        → 1 ≤ length xs
        → (k : ℕ) × (recv_batch (holding c xs) max_lines max_bytes
            ≡ (holding c (drop k xs), lines (take k xs)))
          × (1 ≤ k)
          × (k ≤ length xs)
          × (k ≤ max 1 max_lines)
          × IsWithin max_bytes xs k
          × IsEnd max_lines max_bytes xs 0 0 k
    go c [] some_line = absurd (omega arith)
    go c (x ∷ xs) some_line =
        let (k, out, within, few, below_bytes, end) =
          drain-takes (length xs + 1) max_lines max_bytes c xs (length x + 1) (x ∷ [])
            (omega arith) in
        (
          suc k,
          unfold recv_batch in ap (first_of max_lines max_bytes) (try_pop-line c x xs) ∙ out,
          omega arith,
          omega arith,
          omega (arith, few),
          elim below_bytes [
            | inl alone ↦ inl (omega (arith, alone))
            | inr low ↦ taken_second x xs k low
          ],
          elim end [
            | inl all ↦ inl (omega (arith, all))
            | inr (inl full) ↦ inr (inl (omega (arith, full)))
            | inr (inr big) ↦ inr (inr (omega (arith, big)))
          ],
        )
