-- ===== src/Worker/Queue.antt =====
-- worker/src/queue.rs: `LineQueue`. The semaphore is the number of its permits. A task that would wait
-- for a permit, and a panic of `expect`, are results of their own.
pub mod Bounds
use openseafeed.Base.{
  ℕ, zero, suc, ◌+◌, ◌-◌, List, [], ◌∷◌, ◌++◌, length, Bytes, Bool, true, false, ◌==◌, ◌&&◌, ltb,
  leb, if◌then◌else◌, Option, none, some,
}

pub record LineQueue : Type 0 where
  pub inner : List Bytes
  pub items : ℕ
  pub capacity : ℕ

unfoldable pub new : ℕ → LineQueue
new capacity = record { inner = []; items = 0; capacity = capacity }

unfoldable pub len : LineQueue → ℕ
len q = q.items

unfoldable pub is_empty : LineQueue → Bool
is_empty q = len q == 0

abbrev pub pop_front : List Bytes → List Bytes
pop_front [] = []
pop_front (line ∷ rest) = rest

unfoldable pub push : LineQueue → Bytes → LineQueue × Bool
push q line =
    if leb q.capacity (length q.inner)
    then (record q { inner = pop_front q.inner ++ line ∷ [] }, true)
    else (record q { inner = q.inner ++ line ∷ []; items = q.items + 1 }, false)

-- What taking a line comes to: a line, no permit, or a permit and no line.
pub data Taken : Type 0 where
  line : Bytes → Taken
  nothing : Taken
  panic : Taken

-- `expect("permit implies a queued line")`, a permit in hand.
unfoldable pub take_line : LineQueue → LineQueue × Taken
take_line q = elim q.inner [
  | [] ↦ (record q { items = q.items - 1 }, panic)
  | first ∷ rest ↦ (record q { inner = rest; items = q.items - 1 }, line first)
]

-- `try_pop`, and `pop` when `nothing` means that the task waits.
unfoldable pub try_pop : LineQueue → LineQueue × Taken
try_pop q = if q.items == 0 then (q, nothing) else take_line q

-- What `recv_batch` comes to; `waits` is the await of its first line.
pub data Batch : Type 0 where
  lines : List Bytes → Batch
  waits : Batch
  panics : Batch

-- The loop behind the first line: `batch` in hand, in order. A round takes a line, so the lines that
-- are queued, and one, are enough fuel.
unfoldable pub drain :
    ℕ → (max_lines max_bytes : ℕ) → LineQueue → ℕ → List Bytes → LineQueue × Batch
drain zero max_lines max_bytes q bytes batch = (q, lines batch)
drain (suc fuel) max_lines max_bytes q bytes batch =
    if ltb (length batch) max_lines && ltb bytes max_bytes
    then (let (p, taken) = try_pop q in
        elim taken [
          | line next ↦
              drain fuel max_lines max_bytes p (bytes + (length next + 1)) (batch ++ next ∷ [])
          | nothing ↦ (p, lines batch)
          | panic ↦ (p, panics)
        ])
    else (q, lines batch)

unfoldable pub recv_batch : LineQueue → (max_lines max_bytes : ℕ) → LineQueue × Batch
recv_batch q max_lines max_bytes =
    let (p, taken) = try_pop q in
    elim taken [
      | line first ↦
          drain (length p.inner + 1) max_lines max_bytes p (length first + 1) (first ∷ [])
      | nothing ↦ (p, waits)
      | panic ↦ (p, panics)
    ]
