-- ===== src/Pipeline/Handle/Balance.antt =====
-- The counters of the pipeline.
use openseafeed.Base.{
  ℕ, ◌+◌, ◌≤◌, ◌≡◌, refl, sym, ap, ◌∙◌, subst, arith, List, [], ◌∷◌, length, Bool, true, false,
  ◌==◌, Option, none, some, Bool-cases, inl, inr,
}
use openseafeed.Base.Result.{Result, ok, err}
use openseafeed.Ais.Float.{Floats}
use openseafeed.Ais.Types.{Message}
use openseafeed.Ais.Decode.{decode}
use openseafeed.Feed.{RawEnvelope}
use openseafeed.Pipeline.Dedupe.{seen}
use openseafeed.Pipeline.Handle.{
  Stats, Pipeline, Writes, Publication, Platform, Event, Handled, fail, publish, handle_message,
  handle_decoded, handle_raw, handle, counted, round, trimmed, with_publication, rounds,
}

-- Each message is a duplicate, an error or published; what is published was decoded, and what was decoded
-- and not published is an error.
abbrev pub IsBalanced : Stats → Type 0
IsBalanced s =
    (s.received ≡ s.duplicates + s.decode_errors + s.published)
    × (s.published ≤ s.decoded)
    × (s.decoded ≤ s.published + s.decode_errors)

abbrev count : Option Publication → ℕ
count none = 0
count (some publication) = 1

abbrev bad : Bool → ℕ
bad true = 0
bad false = 1

module _ (fl : Floats) (platform : Platform fl.F) where
  open fl use {F}

  -- What a call of `handle` adds to the counters.
  abbrev Adds : Stats → Handled F → Type 0
  Adds s h =
      (h.state.stats.received ≡ s.received)
      × (h.state.stats.decode_errors ≡ s.decode_errors)
      × (h.state.stats.duplicates + h.state.stats.published + bad h.is_ok
          ≡ s.duplicates + s.published + 1)
      × (h.state.stats.published ≡ s.published + count h.publication)
      × (h.state.stats.published + s.decoded ≤ h.state.stats.decoded + s.published)
      × (h.state.stats.decoded + s.published ≤ s.decoded + h.state.stats.published + bad h.is_ok)

  fail-Adds : (p : Pipeline F) (writes : Writes) → Adds p.stats (fail fl platform p writes)
  unfolding fail
  fail-Adds p writes = (refl, refl, omega arith, omega arith, omega arith, omega arith)

  publish-Adds :
      (accepted : Bool) (s : Stats) (p : Pipeline F) (writes : Writes) (o : Option Publication)
      → p.stats ≡ record s { decoded = s.decoded + 1 }
      → Adds s (publish fl platform accepted p writes o)
  unfolding publish fail
  publish-Adds accepted s p writes none same =
      rw same (refl, refl, omega arith, omega arith, omega arith, omega arith)
  publish-Adds false s p writes (some publication) same =
      rw same (refl, refl, omega arith, omega arith, omega arith, omega arith)
  publish-Adds true s p writes (some publication) same =
      rw same (refl, refl, omega arith, omega arith, omega arith, omega arith)

  handle_message-Adds :
      (accepted : Bool) (raw : RawEnvelope) (msg : Message F) (p : Pipeline F)
      → Adds p.stats (handle_message fl platform accepted raw msg p)
  unfolding handle_message
  handle_message-Adds accepted raw msg p = publish-Adds accepted p.stats _ _ _ refl

  handle_decoded-Adds :
      {E : Type 0} (accepted : Bool) (raw : RawEnvelope) (p : Pipeline F) (r : Result E (Message F))
      → Adds p.stats (handle_decoded fl platform accepted raw p r)
  unfolding handle_decoded
  handle_decoded-Adds accepted raw p (err e) = fail-Adds p _
  handle_decoded-Adds accepted raw p (ok msg) = elim (Bool-cases (msg.mmsi == 0)) [
    | inl zero ↦ rw (zero, handle_decoded) (fail-Adds p _)
    | inr other ↦ rw (other, handle_decoded) (handle_message-Adds accepted raw msg p)
  ]

  handle_raw-Adds :
      (event : Event) (p : Pipeline F) (o : Option RawEnvelope)
      → Adds p.stats (handle_raw fl platform event p o)
  unfolding handle_raw
  handle_raw-Adds event p none = fail-Adds p _
  handle_raw-Adds event p (some raw) =
      elim (Bool-cases (seen platform.hash p.window raw.payload event.now).1) [
        | inl again ↦
            rw (again, handle_raw) (refl, refl, omega arith, omega arith, omega arith, omega arith)
        | inr new ↦
            rw (new, handle_raw)
              (handle_decoded-Adds event.accepted raw
                (record p { window = (seen platform.hash p.window raw.payload event.now).0 })
                (decode fl raw.payload raw.fill_bits))
      ]

  counted-IsBalanced :
      (s : Stats) (h : Handled F)
      → IsBalanced s
      → Adds (record s { received = s.received + 1 }) h
      → IsBalanced (counted fl platform h).state.stats
        × ((counted fl platform h).state.stats.published ≡ s.published + count h.publication)
        × ((counted fl platform h).publication ≡ h.publication)
  unfolding counted
  counted-IsBalanced s h (all, few, lost) (same, errors, kinds, out, low, high) =
      elim (Bool-cases h.is_ok) [
        | inl fine ↦
            let none : bad h.is_ok ≡ 0 = rw fine refl in
            rw (fine, counted) ((omega arith, omega arith, omega arith), out, refl)
        | inr failed ↦
            let one : bad h.is_ok ≡ 1 = rw failed refl in
            rw (failed, counted) ((omega arith, omega arith, omega arith), out, refl)
      ]

  trimmed-stats : (due : Bool) (p : Pipeline F) → (trimmed fl platform due p).stats ≡ p.stats
  unfolding trimmed
  trimmed-stats true p = refl
  trimmed-stats false p = refl

  length-with_publication :
      (o : Option Publication) (more : List Publication)
      → length (with_publication fl platform o more) ≡ count o + length more
  length-with_publication none more = omega arith
  length-with_publication (some publication) more = omega arith

  round-IsBalanced :
      (event : Event) (p : Pipeline F)
      → IsBalanced p.stats
      → IsBalanced (round fl platform event p).state.stats
        × ((round fl platform event p).state.stats.published
            ≡ p.stats.published + count (round fl platform event p).publication)
  unfolding round handle
  round-IsBalanced event p h =
      let start : Pipeline F = record p {
        stats = record p.stats { received = p.stats.received + 1 };
      } in
      let raw = platform.from_slice event.payload in
      let (balanced, out, same) =
        counted-IsBalanced p.stats (handle_raw fl platform event start raw) h
          (handle_raw-Adds event start raw) in
      (balanced, out ∙ ap (λ o. p.stats.published + count o) (sym same))

  -- The loop keeps the counters balanced: each message is a duplicate, an error or published. And published
  -- counts what went out.
  pub rounds-IsBalanced :
      (events : List (Event × Bool)) (p : Pipeline F)
      → IsBalanced p.stats
      → IsBalanced (rounds fl platform events p).0.stats
        × ((rounds fl platform events p).0.stats.published
            ≡ p.stats.published + length (rounds fl platform events p).1)
  unfolding rounds
  rounds-IsBalanced [] p h = (h, omega arith)
  rounds-IsBalanced ((event, trims) ∷ events) p h =
      let done = round fl platform event p in
      let (balanced, out) = round-IsBalanced event p h in
      let kept = trimmed-stats trims done.state in
      let (last, total) =
        rounds-IsBalanced events (trimmed fl platform trims done.state)
          (subst IsBalanced (sym kept) balanced) in
      let published = ap (λ s. s.published) kept in
      (last, omega (arith, total, published, out, length-with_publication done.publication _))
