-- ===== src/Live.antt =====
-- services/pipeline and services/fanout together: what the one publishes, and what the clients of the other
-- are subscribed to.
use mathlib.Core.List.{Memᴰ}
use openseafeed.Base.{
  ℕ, ◌+◌, ◌≡◌, refl, sym, ◌∙◌, ap, subst, map, Bytes, true, false, ◌==◌, Holds, Option, none, some,
  some_inj, none-ne-some,
}
use openseafeed.Base.Map.{Map, get, nat_eq, text_eq, get-insert, get-insert_self}
use openseafeed.Base.Result.{ok, Succeeds}
use openseafeed.Ais.Float.{Floats}
use openseafeed.Ais.Types.{Message, type_name}
use openseafeed.Ais.Decode.{decode}
use openseafeed.Ais.Bits.{DecodeError}
use openseafeed.Ais.Decode.Placed.{IsPlaced, decode-IsPlaced}
use openseafeed.Geo.{contains, world, encode}
use openseafeed.Geo.Order.{IsOrdered}
use openseafeed.Feed.{RawEnvelope, decoded, decoded_pattern}
use openseafeed.Feed.Wire.{StreamMessage}
use openseafeed.Feed.Headers
use openseafeed.Pipeline.Dedupe.{seen}
use openseafeed.Pipeline.Enrichment.{Place, Writes, Enrichment, locate, enriched}
use openseafeed.Pipeline.Handle.{
  Pipeline, Publication, Platform, Event, Handled, subject_of, headers_of, place_headers, publish,
  publication_of, handle_message, handle_decoded, handle_raw, handle, counted, round, metadata_of,
}
use openseafeed.Pipeline.Handle.Routes.{IsCell, IsCells, get-IsCell}
use openseafeed.Fanout.{ClientFilter, in_boxes, filter_cover}
use openseafeed.Fanout.Heard.{IsMatch, filter_cover-IsMatch}

module _ (fl : Floats) where
  open fl use {F}

  -- Where a vessel is: the position that its message gives, or else the last one that is known.
  abbrev pub whereabouts : (position : Option (F × F)) (last : Option (Place fl)) → Option (F × F)
  whereabouts (some at) last = some at
  whereabouts none none = none
  whereabouts none (some (cell, lat, lon)) = some (lat, lon)

  abbrev cell_at : F × F → Place fl
  cell_at (lat, lon) = (encode fl lat lon 4, lat, lon)

  abbrev IsKnown : F × F → Type 0
  IsKnown (lat, lon) = contains fl (world fl) lat lon ≡ true

  last_cell :
      (o : Option (Place fl)) (at : F × F)
      → whereabouts none o ≡ some at
      → Holds (IsCell fl) o
      → (o ≡ some (cell_at at)) × IsKnown at
  last_cell none at e h = absurd (none-ne-some e)
  last_cell (some (cell, lat, lon)) at e (same, known) =
      subst (λ q. (some (cell, lat, lon) ≡ some (cell_at q)) × IsKnown q) (some_inj e)
        (ap (λ c. some (c, lat, lon)) same, known)

  located :
      (mmsi : ℕ) (position : Option (F × F)) (m : Map ℕ (Place fl)) (at : F × F)
      → whereabouts position (get mmsi m) ≡ some at
      → IsPlaced fl position
      → IsCells fl m
      → ((locate fl mmsi position m).0 ≡ some (cell_at at)) × IsKnown at
  unfolding locate
  located mmsi none m at e placed h = last_cell (get mmsi m) at e (get-IsCell fl mmsi m h)
  located mmsi (some here) m at e placed h =
      subst (λ q. (some (cell_at here) ≡ some (cell_at q)) × IsKnown q) (some_inj e) (refl, placed)

  module _ (platform : Platform F) where
    -- A call of `handle` that publishes.
    abbrev Sends : Publication → Handled F → Type 0
    Sends q h = (h.publication ≡ some q) × (h.is_ok ≡ true)

    publish-Sends :
        (p : Pipeline F) (writes : Writes) (o : Option Publication) (q : Publication)
        → o ≡ some q
        → Sends q (publish fl platform true p writes o)
    unfolding publish
    publish-Sends p writes o q e = rw e (refl, refl)

    counted-Sends :
        (h : Handled F) (q : Publication) → Sends q h → (counted fl platform h).publication ≡ some q
    unfolding counted
    counted-Sends h q (out, fine) = rw fine out

    module _ (to_vec : StreamMessage F platform.Value → Bytes)
        (serializes : (sm : StreamMessage F platform.Value) → platform.to_vec sm ≡ some (to_vec sm))
        (raw : RawEnvelope) (msg : Message F) (value : platform.Value)
        (valued : platform.to_value msg.packet ≡ some value) where
      -- What goes out for a message with a place.
      abbrev Published : Place fl → Publication → Type 0
      Published place q =
          (q.subject ≡ decoded place.0)
          × (get Headers.lat q.headers ≡ some (platform.format6 place.1))
          × (get Headers.lon q.headers ≡ some (platform.format6 place.2))

      publication_of-Published :
          (e : Enrichment F) (place : Place fl)
          → (q : Publication) × (publication_of fl platform raw msg e (some place) ≡ some q)
            × Published place q
      unfolding publication_of subject_of headers_of place_headers
      publication_of-Published e place =
          let sm : StreamMessage F platform.Value = record {
            message = value;
            message_type = type_name msg.packet;
            metadata = metadata_of fl platform raw msg e (some place);
          } in
          (
            record {
              subject = subject_of fl platform (some place);
              headers = headers_of fl platform raw msg (some place);
              payload = to_vec sm;
            },
            rw (valued, serializes sm) refl,
            (
              refl,
              get-insert Headers.lat Headers.lon _ _ ∙ get-insert_self Headers.lat _ _,
              get-insert_self Headers.lon _ _,
            ),
          )

      handle_message-Sends :
          (p : Pipeline F) (place : Place fl)
          → (locate fl msg.mmsi msg.position p.enrich.last_pos).0 ≡ some place
          → (q : Publication) × Sends q (handle_message fl platform true raw msg p)
            × Published place q
      unfolding handle_message
      handle_message-Sends p place found =
          let e = (enriched fl msg p.enrich).0 in
          let placed : (enriched fl msg p.enrich).2 ≡ some place = unfold enriched in found in
          let (q, out, fine) = publication_of-Published e place in
          (q, publish-Sends _ _ _ q (ap (publication_of fl platform raw msg e) placed ∙ out), fine)

      handle_raw-Sends :
          (payload : Bytes) (now : ℕ) (p : Pipeline F) (place : Place fl)
          → (seen platform.hash p.window raw.payload now).1 ≡ false
          → decode fl raw.payload raw.fill_bits ≡ ok msg
          → (msg.mmsi == 0) ≡ false
          → (locate fl msg.mmsi msg.position p.enrich.last_pos).0 ≡ some place
          → (q : Publication) × Sends q (
              handle_raw fl platform
                (record { payload = payload; now = now; accepted = true })
                p
                (some raw))
            × Published place q
      unfolding handle_raw handle_decoded
      handle_raw-Sends payload now p place fresh decodes named found =
          let after : Pipeline F = record p {
            window = (seen platform.hash p.window raw.payload now).0;
          } in
          let (q, sent, fine) = handle_message-Sends after place found in
          let direct : Sends q
              (handle_decoded fl platform {E = DecodeError} true raw after (ok msg)) =
            rw (named, handle_decoded) sent in
          (
            q,
            rw (fresh, handle_raw)
                (subst (λ r. Sends q (handle_decoded fl platform true raw after r)) (sym decodes)
                  direct),
            fine,
          )

    -- From last positions in their cells: a message that is no copy, is decoded, has an identity, and whose vessel is
    -- in a box of a client's filter, by the position of the message or else by the last one that is known, is
    -- published when the bus takes it and the JSON library does not fail: with the position in its headers, and on a
    -- subject that one of the patterns of the filter matches.
    pub round-IsHeard :
        IsOrdered fl
        → (filter : ClientFilter F) (to_vec : StreamMessage F platform.Value → Bytes)
          (payload : Bytes) (now : ℕ) (p : Pipeline F) (raw : RawEnvelope) (msg : Message F)
          (value : platform.Value) (lat lon : F)
        → ((sm : StreamMessage F platform.Value) → platform.to_vec sm ≡ some (to_vec sm))
        → platform.to_value msg.packet ≡ some value
        → IsCells fl p.enrich.last_pos
        → platform.from_slice payload ≡ some raw
        → (seen platform.hash p.window raw.payload now).1 ≡ false
        → decode fl raw.payload raw.fill_bits ≡ ok msg
        → (msg.mmsi == 0) ≡ false
        → whereabouts msg.position (get msg.mmsi p.enrich.last_pos) ≡ some (lat, lon)
        → in_boxes fl filter lat lon ≡ true
        → (q : Publication) × ((round fl platform
              (record { payload = payload; now = now; accepted = true })
              p).publication
            ≡ some q)
          × (get Headers.lat q.headers ≡ some (platform.format6 lat))
          × (get Headers.lon q.headers ≡ some (platform.format6 lon))
          × ((pattern : Bytes) × Memᴰ pattern (map decoded_pattern (filter_cover fl filter))
              × IsMatch pattern q.subject)
    unfolding round handle
    round-IsHeard o filter to_vec payload now p raw msg value lat lon serializes valued cells
          arrives fresh decodes named at inside =
        let event : Event = record { payload = payload; now = now; accepted = true } in
        let start : Pipeline F = record p {
          stats = record p.stats { received = p.stats.received + 1 };
        } in
        let placed : IsPlaced fl msg.position =
          subst (Succeeds (λ (m : Message F). IsPlaced fl m.position)) decodes
            (decode-IsPlaced fl raw.payload raw.fill_bits) in
        let (found, known) =
          located msg.mmsi msg.position p.enrich.last_pos (lat, lon) at placed cells in
        let (q, sent, (subject, lats, lons)) =
          handle_raw-Sends to_vec serializes raw msg value valued payload now start
            (encode fl lat lon 4, lat, lon) fresh decodes named found in
        let (pattern, m, match) = filter_cover-IsMatch fl o filter lat lon known inside in
        (
          q,
          counted-Sends _ q
              (subst (λ r. Sends q (handle_raw fl platform event start r)) (sym arrives) sent),
          lats,
          lons,
          (pattern, m, subst (IsMatch pattern) (sym subject) match),
        )
