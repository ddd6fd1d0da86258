-- ===== src/Radio.antt =====
-- The encoder of crates/ais, the sentences and the assembler of crates/nmea, and the decoder of
-- crates/ais, one behind the other.
use openseafeed.Base.{
  ℕ, zero, suc, ◌+◌, ◌-◌, ◌/◌, ◌≤◌, ◌<◌, ◌≡◌, ◌⊎◌, arith, List, [], ◌∷◌, length, Bytes, All, none,
  Bool,
}
use openseafeed.Base.Map.{get, IsDistinct, text_eq}
use openseafeed.Base.Result.{ok}
use openseafeed.Nmea.Sentence.{ok as received}
use openseafeed.Ais.BitList.{value-lt}
use openseafeed.Ais.BitsMut.{BitsMut, new, armor, armor_from, fill_of, to_payload}
use openseafeed.Ais.BitsMut.Pushes.{IsBits, new-IsBits}
use openseafeed.Ais.Armor.Back.{armor_from-window, gather-value, window}
use openseafeed.Ais.Float.{Floats}
use openseafeed.Ais.Types.{Message, PositionReport, ShipStaticData}
use openseafeed.Ais.Decode.{decode}
use openseafeed.Ais.Encode.{encode_position_report, encode_ship_static_data}
use openseafeed.Ais.Encode.Segments.{
  Seg, total, all_bits, push_all, push_all-IsBits, length-all_bits,
}
use openseafeed.Ais.RoundTrip.Laws.{IsExact}
use openseafeed.Ais.RoundTrip.Parts.{message}
use openseafeed.Ais.RoundTrip.Position.{
  Fits as FitsPosition, body as position_body, position_segs, encode-segs as position-segs,
  decode-encode_position_report,
}
use openseafeed.Ais.RoundTrip.ShipStatic.{
  Fits as FitsStatic, body as static_body, ship_static_segs, encode-segs as static-segs,
  decode-encode_ship_static_data,
}
use openseafeed.Nmea.Sentence.{is_bad_char}
use openseafeed.Nmea.Sentence.Parse.{IsPayloadChar}
use openseafeed.Nmea.Encode.{to_sentences}
use openseafeed.Nmea.Encode.Line.{IsField}
use openseafeed.Nmea.Assembler.{Group, Assembler}
use openseafeed.Nmea.Delivery.{receive, group_key, receive-to_sentences}

armor-IsPayloadChar : (v : ℕ) → v < 64 → IsPayloadChar (armor v)
unfolding armor is_bad_char
armor-IsPayloadChar v h = ground arith

-- An armored payload has only the characters that `parse` lets through.
armor_from-IsPayloadChar :
    (left i : ℕ) (m : BitsMut) (l : List Bool)
    → IsBits m l
    → All IsPayloadChar (armor_from left i m)
unfolding armor_from
armor_from-IsPayloadChar zero i m l h = tt
armor_from-IsPayloadChar (suc left) i m l h =
    let six = gather-value 6 i m l 0 0 h (omega arith) (omega arith) in
    (
      rw six (armor-IsPayloadChar _ (value-lt (window 6 i l) 0 0 (omega arith))),
      armor_from-IsPayloadChar left (i + 6) m l h,
    )

to_payload-fits :
    (m : BitsMut) (l : List Bool)
    → IsBits m l
    → m.n ≤ 91800
    → All IsPayloadChar (to_payload m).0
      × (length (to_payload m).0 ≤ 15300)
      × ((to_payload m).1 ≤ 5)
unfolding to_payload
to_payload-fits m l h short =
    let (_, count, _) = armor_from-window ((m.n + fill_of m.n) / 6) 0 m l h in
    (armor_from-IsPayloadChar ((m.n + fill_of m.n) / 6) 0 m l h, omega (arith, count), omega arith)

-- An assembler that the sentences of a group find ready: nothing is pending under the group's key, and
-- the clock gives the last of them no more than `ttl` after the first.
pub record IsReady (a : Assembler) (clock : ℕ → ℕ) (payload channel : Bytes) (seq : ℕ)
    : Type 0 where
  pub distinct : IsDistinct a.pending
  pub absent : get (group_key payload channel seq) a.pending ≡ none
  pub young : (j : ℕ) → clock j - clock 0 ≤ a.ttl

module _ (channel : Bytes) (seq : ℕ) (a : Assembler) (clock : ℕ → ℕ)
    (channels : IsField channel) where
  -- One message comes out, and it is the payload.
  abbrev Arrives : Bytes × ℕ → Type 0
  Arrives (payload, fill) =
      (g : Group) × (receive a clock (to_sentences payload fill channel seq) ≡ received (g ∷ []))
      × (g.payload ≡ payload)
      × (g.fill_bits ≡ fill)
      × (g.channel ≡ channel)

  arrives :
      (ss : List Seg)
      → total ss ≤ 91800
      → IsReady a clock (to_payload (push_all new ss)).0 channel seq
      → Arrives (to_payload (push_all new ss))
  arrives ss short ready =
      let pushed = push_all-IsBits ss new [] new-IsBits in
      let (chars, few, fills) =
        to_payload-fits (push_all new ss) (all_bits ss) pushed
          (omega (arith, pushed.count, length-all_bits ss)) in
      receive-to_sentences (to_payload (push_all new ss)).0 channel (to_payload (push_all new ss)).1
        seq a clock chars few fills channels ready.distinct ready.absent ready.young

  module _ (fl : Floats) where
    open fl use {F}

    -- One message comes out of the sentences of a payload, and it is decoded to `msg`.
    abbrev pub IsHeard : Bytes × ℕ → Message F → Type 0
    IsHeard (payload, fill) msg =
        (g : Group) × (receive a clock (to_sentences payload fill channel seq) ≡ received (g ∷ []))
        × (decode fl g.payload g.fill_bits ≡ ok msg)

    heard :
        (sent : Bytes × ℕ) (msg : Message F)
        → Arrives sent
        → decode fl sent.0 sent.1 ≡ ok msg
        → IsHeard sent msg
    heard sent msg (g, out, text, fill, _) decoded = (g, out, rw (text, fill) decoded)

    position-IsHeard :
        IsExact fl
        → (p : PositionReport F)
        → (p.header.message_id ≡ 1) ⊎ (p.header.message_id ≡ 2) ⊎ (p.header.message_id ≡ 3)
        → FitsPosition fl p
        → IsReady a clock (encode_position_report fl p).0 channel seq
        → IsHeard (encode_position_report fl p) (message fl p.header (position_body fl p))
    position-IsHeard exact p id fits ready =
        heard (encode_position_report fl p) _
          (rw (position-segs fl p)
            (arrives (position_segs fl p) (omega arith) (rw (position-segs fl p) at ready)))
          (decode-encode_position_report fl exact p id fits)

    static-IsHeard :
        IsExact fl
        → (p : ShipStaticData F) → p.header.message_id ≡ 5
        → FitsStatic fl p
        → IsReady a clock (encode_ship_static_data fl p).0 channel seq
        → IsHeard (encode_ship_static_data fl p) (message fl p.header (static_body fl p))
    static-IsHeard exact p id fits ready =
        heard (encode_ship_static_data fl p) _
          (rw (static-segs fl p)
            (arrives (ship_static_segs fl p) (omega arith) (rw (static-segs fl p) at ready)))
          (decode-encode_ship_static_data fl exact p id fits)

-- A class A position report that fits, encoded, written as sentences on a channel without a comma, and
-- received by an assembler that is ready for them, is one message; the payload of it is decoded to the report.
pub position_report-IsHeard :
    (fl : Floats) (channel : Bytes) (seq : ℕ) (a : Assembler) (clock : ℕ → ℕ)
    → (channels : IsField channel) → IsExact fl
    → (p : PositionReport fl.F)
    → (p.header.message_id ≡ 1) ⊎ (p.header.message_id ≡ 2) ⊎ (p.header.message_id ≡ 3)
    → FitsPosition fl p
    → IsReady a clock (encode_position_report fl p).0 channel seq
    → IsHeard channel seq a clock channels fl
        (encode_position_report fl p)
        (message fl p.header (position_body fl p))
position_report-IsHeard fl channel seq a clock channels exact p id fits ready =
    position-IsHeard channel seq a clock channels fl exact p id fits ready

-- Static data of a ship that fit, encoded, written as sentences on a channel without a comma, and
-- received by an assembler that is ready for them, are one message; the payload of it is decoded to the data.
pub ship_static_data-IsHeard :
    (fl : Floats) (channel : Bytes) (seq : ℕ) (a : Assembler) (clock : ℕ → ℕ)
    → (channels : IsField channel) → IsExact fl
    → (p : ShipStaticData fl.F) → p.header.message_id ≡ 5
    → FitsStatic fl p
    → IsReady a clock (encode_ship_static_data fl p).0 channel seq
    → IsHeard channel seq a clock channels fl
        (encode_ship_static_data fl p)
        (message fl p.header (static_body fl p))
ship_static_data-IsHeard fl channel seq a clock channels exact p id fits ready =
    static-IsHeard channel seq a clock channels fl exact p id fits ready
