-- ===== src/Pipeline/Handle/Routes.antt =====
-- The subjects of what the pipeline publishes, and the clients that hear it.
use openseafeed.Base.{
  ℕ, ◌+◌, ◌≡◌, refl, ap, ◌∙◌, List, [], ◌∷◌, length, All, Holds, Holds-chain, Bytes, Bool, true,
  false, ◌==◌, ltb, Option, none, some, Bool-cases, ◌⊎◌, inl, inr,
}
use openseafeed.Base.Map.{Map, get, insert, nat_eq, text_eq, get-insert, get-insert_self}
use openseafeed.Base.Result.{Result, ok, err, Succeeds}
use openseafeed.Ais.Float.{Floats}
use openseafeed.Ais.Types.{Message}
use openseafeed.Ais.Decode.{decode}
use openseafeed.Ais.Decode.Placed.{IsPlaced, decode-IsPlaced}
use openseafeed.Geo.{contains, world, encode}
use openseafeed.Feed.{RawEnvelope, decoded, no_position}
use openseafeed.Feed.Headers
use openseafeed.Pipeline.Dedupe.{seen}
use openseafeed.Pipeline.Enrichment.{
  Enrichment, Writes, clear_above, cache_cap, trim, Place, locate, enriched,
}
use openseafeed.Pipeline.Handle.{
  Pipeline, Publication, Platform, Event, Handled, subject_of, headers_of, place_headers, fail,
  publish, publication_of, handle_message, handle_decoded, handle_raw, handle, counted, round,
  trimmed, with_publication, rounds,
}

module _ (fl : Floats) where
  open fl use {F}

  -- A position of the globe, and the cell that its geohash names.
  abbrev pub IsCell : Place fl → Type 0
  IsCell (cell, lat, lon) = (cell ≡ encode fl lat lon 4) × (contains fl (world fl) lat lon ≡ true)

  abbrev pub IsCells : Map ℕ (Place fl) → Type 0
  IsCells m = All (λ e. IsCell e.1) m

  pub get-IsCell : (k : ℕ) (m : Map ℕ (Place fl)) → IsCells m → Holds IsCell (get k m)
  unfolding get
  get-IsCell k [] h = tt
  get-IsCell k ((j, place) ∷ m) (one, h) = elim (Bool-cases (k == j)) [
    | inl same ↦ rw same one
    | inr other ↦ rw other (get-IsCell k m h)
  ]

  insert-IsCells :
      (k : ℕ) (place : Place fl) (m : Map ℕ (Place fl))
      → IsCell place
      → IsCells m
      → IsCells (insert k place m)
  unfolding insert
  insert-IsCells k place [] new h = (new, tt)
  insert-IsCells k place ((j, old) ∷ m) new (one, h) = elim (Bool-cases (k == j)) [
    | inl same ↦ rw same (new, h)
    | inr other ↦ rw other (one, insert-IsCells k place m new h)
  ]

  clear_above-IsCells : (m : Map ℕ (Place fl)) → IsCells m → IsCells (clear_above m)
  unfolding clear_above
  clear_above-IsCells m h = elim (Bool-cases (ltb cache_cap (length m))) [
    | inl full ↦ rw full tt
    | inr fits ↦ rw fits h
  ]

  locate-IsCells :
      (mmsi : ℕ) (position : Option (F × F)) (m : Map ℕ (Place fl))
      → IsPlaced fl position
      → IsCells m
      → Holds IsCell (locate fl mmsi position m).0 × IsCells (locate fl mmsi position m).1
  unfolding locate
  locate-IsCells mmsi none m placed h = (get-IsCell mmsi m h, h)
  locate-IsCells mmsi (some (lat, lon)) m placed h =
      ((refl, placed), insert-IsCells mmsi _ m (refl, placed) h)

  module _ (platform : Platform F) where
    -- A message without a place, or one of a position of the globe, whose headers give the position and
    -- whose subject is that of its cell.
    abbrev pub IsRoute : Publication → Type 0
    IsRoute p =
        ((p.subject ≡ no_position) × (get Headers.lat p.headers ≡ none))
        ⊎ ((lat lon : F) × (contains fl (world fl) lat lon ≡ true)
            × (p.subject ≡ decoded (encode fl lat lon 4))
            × (get Headers.lat p.headers ≡ some (platform.format6 lat))
            × (get Headers.lon p.headers ≡ some (platform.format6 lon)))

    route :
        (raw : RawEnvelope) (msg : Message F) (place : Option (Place fl)) (payload : Bytes)
        → Holds IsCell place
        → IsRoute (record {
          subject = subject_of fl platform place;
          headers = headers_of fl platform raw msg place;
          payload = payload;
        })
    unfolding subject_of headers_of place_headers
    route raw msg none payload h = inl (refl, unfold get insert in refl)
    route raw msg (some (cell, lat, lon)) payload (same, known) = inr (
      lat,
      lon,
      known,
      ap decoded same,
      get-insert Headers.lat Headers.lon _ _ ∙ get-insert_self Headers.lat _ _,
      get-insert_self Headers.lon _ _,
    )

    publication_of-IsRoute :
        (raw : RawEnvelope) (msg : Message F) (e : Enrichment F) (place : Option (Place fl))
        → Holds IsCell place
        → Holds IsRoute (publication_of fl platform raw msg e place)
    unfolding publication_of
    publication_of-IsRoute raw msg e place h =
        Holds-chain IsRoute (platform.to_value msg.packet) _ (λ value.
          Holds-chain IsRoute (platform.to_vec _) _ (λ payload. route raw msg place payload h))

    -- A call that keeps the last positions on their cells, and publishes as above.
    abbrev IsRouted : Handled F → Type 0
    IsRouted h = IsCells h.state.enrich.last_pos × Holds IsRoute h.publication

    publish-IsRouted :
        (accepted : Bool) (p : Pipeline F) (writes : Writes) (o : Option Publication)
        → IsCells p.enrich.last_pos
        → Holds IsRoute o
        → IsRouted (publish fl platform accepted p writes o)
    unfolding publish fail
    publish-IsRouted accepted p writes none h ho = (h, tt)
    publish-IsRouted false p writes (some publication) h ho = (h, tt)
    publish-IsRouted true p writes (some publication) h ho = (h, ho)

    handle_message-IsRouted :
        (accepted : Bool) (raw : RawEnvelope) (msg : Message F) (p : Pipeline F)
        → IsPlaced fl msg.position
        → IsCells p.enrich.last_pos
        → IsRouted (handle_message fl platform accepted raw msg p)
    unfolding handle_message enriched
    handle_message-IsRouted accepted raw msg p placed h =
        let (place, cells) = locate-IsCells msg.mmsi msg.position p.enrich.last_pos placed h in
        publish-IsRouted accepted _ _ _ cells (publication_of-IsRoute raw msg _ _ place)

    handle_decoded-IsRouted :
        {E : Type 0} (accepted : Bool) (raw : RawEnvelope) (p : Pipeline F)
        (r : Result E (Message F))
        → Succeeds (λ (m : Message F). IsPlaced fl m.position) r
        → IsCells p.enrich.last_pos
        → IsRouted (handle_decoded fl platform accepted raw p r)
    unfolding handle_decoded fail
    handle_decoded-IsRouted accepted raw p (err e) placed h = (h, tt)
    handle_decoded-IsRouted accepted raw p (ok msg) placed h = elim (Bool-cases (msg.mmsi == 0)) [
      | inl zero ↦ rw (zero, handle_decoded) (h, tt)
      | inr other ↦ rw (other, handle_decoded) (handle_message-IsRouted accepted raw msg p placed h)
    ]

    handle_raw-IsRouted :
        (event : Event) (p : Pipeline F) (o : Option RawEnvelope)
        → IsCells p.enrich.last_pos
        → IsRouted (handle_raw fl platform event p o)
    unfolding handle_raw fail
    handle_raw-IsRouted event p none h = (h, tt)
    handle_raw-IsRouted event p (some raw) h =
        elim (Bool-cases (seen platform.hash p.window raw.payload event.now).1) [
          | inl again ↦ rw (again, handle_raw) (h, tt)
          | inr new ↦
              rw (new, handle_raw)
                (handle_decoded-IsRouted event.accepted raw
                  (record p { window = (seen platform.hash p.window raw.payload event.now).0 })
                  (decode fl raw.payload raw.fill_bits)
                  (decode-IsPlaced fl raw.payload raw.fill_bits) h)
        ]

    counted-IsRouted : (h : Handled F) → IsRouted h → IsRouted (counted fl platform h)
    unfolding counted
    counted-IsRouted h routed = elim (Bool-cases h.is_ok) [
      | inl fine ↦ rw (fine, counted) routed
      | inr failed ↦ rw (failed, counted) routed
    ]

    trimmed-IsCells :
        (due : Bool) (p : Pipeline F)
        → IsCells p.enrich.last_pos
        → IsCells (trimmed fl platform due p).enrich.last_pos
    unfolding trimmed trim
    trimmed-IsCells true p h = clear_above-IsCells p.enrich.last_pos h
    trimmed-IsCells false p h = h

    with_publication-All :
        (o : Option Publication) (more : List Publication)
        → Holds IsRoute o
        → All IsRoute more
        → All IsRoute (with_publication fl platform o more)
    with_publication-All none more h hs = hs
    with_publication-All (some publication) more h hs = (h, hs)

    -- From last positions that are on the globe and in their cells, the loop keeps them so, and
    -- each message that it publishes either has no place and goes to the subject of those, or has the headers of
    -- a position of the globe and goes to the subject of its cell.
    pub rounds-IsRoute :
        (events : List (Event × Bool)) (p : Pipeline F)
        → IsCells p.enrich.last_pos
        → IsCells (rounds fl platform events p).0.enrich.last_pos
          × All IsRoute (rounds fl platform events p).1
    unfolding rounds round handle
    rounds-IsRoute [] p h = (h, tt)
    rounds-IsRoute ((event, trims) ∷ events) p h =
        let start : Pipeline F = record p {
          stats = record p.stats { received = p.stats.received + 1 };
        } in
        let (cells, out) =
          counted-IsRouted _
            (handle_raw-IsRouted event start (platform.from_slice event.payload) h) in
        let (last, more) =
          rounds-IsRoute events (trimmed fl platform trims (round fl platform event p).state)
            (trimmed-IsCells trims _ cells) in
        (last, with_publication-All _ _ out more)
