-- ===== src/Tests/Services.antt =====
-- The queue and the window of duplicates on concrete inputs.
use openseafeed.Base.{
  ℕ, ◌≡◌, ◌≤◌, refl, [], ◌∷◌, ◌++◌, arith, codes, length, take, drop, max, leb, false,
  if◌then◌else◌, true, some, ◌↔◌, ◌-◌,
}
use openseafeed.Base.Map.{get, retain, IsDistinct, nat_eq}
use openseafeed.Worker.Queue.{LineQueue, new, push, pop_front, lines, recv_batch}
use openseafeed.Worker.Queue.Bounds.{
  IsQueue, IsEnd, IsWithin, holding, new-IsQueue, push-IsQueue, recv_batch-takes,
}
use openseafeed.Pipeline.Dedupe.{Window, sweep, is_recent, seen}
use openseafeed.Pipeline.Dedupe.Laws.{seen_iff}

push-IsQueue_example :
    IsQueue (push (new 2) (codes "a")).0
    × ((push (new 2) (codes "a")).1 ≡ leb (new 2).capacity (length (new 2).inner))
    × ((push (new 2) (codes "a")).0.inner
        ≡ (if leb (new 2).capacity (length (new 2).inner)
            then pop_front (new 2).inner
            else (new 2).inner)
          ++ codes "a" ∷ [])
push-IsQueue_example = push-IsQueue (new 2) (codes "a") (new-IsQueue 2 (omega arith))

abbrev three_lines : LineQueue
three_lines = record { inner = codes "ab" ∷ codes "cde" ∷ codes "f" ∷ []; items = 3; capacity = 16 }

recv_batch-takes_example :
    (k : ℕ) × (recv_batch three_lines 2 1200
      ≡ (holding 16 (drop k three_lines.inner), lines (take k three_lines.inner)))
    × (1 ≤ k)
    × (k ≤ 3)
    × (k ≤ max 1 2)
    × IsWithin 1200 three_lines.inner k
    × IsEnd 2 1200 three_lines.inner 0 0 k
recv_batch-takes_example = recv_batch-takes three_lines 2 1200 refl (omega arith)

-- Any function serves as the hasher.
abbrev window : Window
window = record { ttl = 10; seen_at = (3, 95) ∷ []; last_sweep = 90 }

seen_iff_example :
    (((seen length window (codes "abc") 100).1 ≡ true)
      ↔ ((at : ℕ) × (get (length (codes "abc")) window.seen_at ≡ some at) × (100 - at ≤ 10)))
    × (get (length (codes "abc")) (seen length window (codes "abc") 100).0.seen_at ≡ (
        if (seen length window (codes "abc") 100).1
        then get (length (codes "abc")) window.seen_at
        else some 100))
    × IsDistinct (seen length window (codes "abc") 100).0.seen_at
seen_iff_example = seen_iff length window (codes "abc") 100 (unfold get in refl, tt)

first_copy : (seen length window (codes "ab") 100).1 ≡ false
unfolding seen sweep is_recent get retain
first_copy = refl
