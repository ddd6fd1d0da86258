-- ===== src/Ais/RoundTrip/Parts.antt =====
-- The parts that the messages share: the header, the dimensions, the scaled fields and the dispatch.
use openseafeed.Base.{
  ℕ, ◌*◌, ◌%◌, ◌^◌, ◌≤◌, ◌<◌, ◌≡◌, refl, sym, ap, ◌∙◌, arith, List, ◌∷◌, true, some, get_elem?, All,
  Bytes, length, take_all,
}
use openseafeed.Base.Int.{ℤ, pos, negsuc}
use openseafeed.Base.Result.{ok}
use openseafeed.Ais.Bits.{Bits, uint, int, string, trim_end, len}
use openseafeed.Ais.BitsMut.{as_u64, new, to_payload}
use openseafeed.Ais.Float.{Floats, tenths, of_nat}
use openseafeed.Ais.Types.{Header, Dimension, Message}
use openseafeed.Ais.Fields.{as_i16, minutes_to_deg, decode_header, need}
use openseafeed.Ais.Decode.{Body, decode, decode_bits, decode_body}
use openseafeed.Ais.Encode.{to_tenths, deg_to_minutes}
use openseafeed.Ais.Encode.Segments.{Seg, number, text, Carries, offset, push_all, transfer}
use openseafeed.Ais.RoundTrip.Fields.{
  IsSigned, nat_field, cast_field, int_28, int_27, int_18, int_17,
}
use openseafeed.Ais.RoundTrip.Texts.{IsPlain, text_field}
use openseafeed.Ais.RoundTrip.Laws.{IsExact}

-- The header fits its bits.
pub record FitsHeader (h : Header) : Type 0 where
  pub message_id : h.message_id < 2 ^ 6
  pub repeat_indicator : h.repeat_indicator < 2 ^ 2
  pub user_id : h.user_id < 2 ^ 30
  pub valid : h.valid ≡ true

pub record FitsDimension (dim : Dimension) : Type 0 where
  pub a : dim.a < 2 ^ 9
  pub b : dim.b < 2 ^ 9
  pub c : dim.c < 2 ^ 6
  pub d : dim.d < 2 ^ 6

-- A text that a field of `k` characters keeps: plain, short enough, with no space at its end.
pub record FitsText (k : ℕ) (s : Bytes) : Type 0 where
  pub plain : All IsPlain s
  pub short : length s ≤ k
  pub trimmed : trim_end s ≡ s

abbrev pub header_segs : Header → List Seg → List Seg
header_segs h rest =
    number 6 h.message_id ∷ number 2 h.repeat_indicator ∷ number 30 h.user_id ∷ rest

pub header_back :
    (bs : Bits) (h : Header) (rest : List Seg)
    → Carries bs (header_segs h rest)
    → FitsHeader h
    → decode_header bs ≡ h
unfolding decode_header
header_back bs h rest c fits =
    let ss = header_segs h rest in
    λ i. record {
      message_id = cast_field bs ss c 0 6 h.message_id (2 ^ 8) refl fits.message_id (omega arith) i;
      repeat_indicator =
          cast_field bs ss c 1 2 h.repeat_indicator (2 ^ 8) refl fits.repeat_indicator (omega arith)
            i;
      user_id = cast_field bs ss c 2 30 h.user_id (2 ^ 32) refl fits.user_id (omega arith) i;
      valid = sym fits.valid i;
    }

pub as_i16_back : (v : ℤ) → IsSigned (2 ^ 7) v → as_i16 v ≡ v
unfolding as_i16
as_i16_back v h = ground arith

wider : (m n : ℕ) (v : ℤ) → m ≤ n → IsSigned m v → IsSigned n v
wider m n (pos k) h small = omega arith
wider m n (negsuc k) h small = omega arith

module _ (bs : Bits) (ss : List Seg) (c : Carries bs ss) where
  pub fitting_text :
      (i k : ℕ) (s : Bytes)
      → get_elem? ss i ≡ some (text k s)
      → FitsText k s
      → 0 < k
      → string bs (offset i ss) (6 * k) ≡ s
  fitting_text i k s e fits some_chars =
      text_field bs ss c i k s e some_chars fits.plain ∙ rw (take_all s k fits.short) fits.trimmed

module _ (fl : Floats) where
  open fl use {F, to_u64, round}

  -- The multiples of a tenth, of a minute's fraction, and of one, that `w` bits or a sign can hold.
  abbrev pub IsTenths : ℕ → F → Type 0
  IsTenths w x = (n : ℕ) × (n < 2 ^ w) × (x ≡ tenths fl n)

  abbrev pub IsDegrees : ℕ → ℕ → F → Type 0
  IsDegrees half scale x = (v : ℤ) × IsSigned half v × (x ≡ minutes_to_deg fl v scale)

  abbrev pub IsWhole : ℕ → F → Type 0
  IsWhole w x = (n : ℕ) × (n < 2 ^ w) × (x ≡ of_nat fl n)

  module _ (exact : IsExact fl) (bs : Bits) (ss : List Seg) (c : Carries bs ss) where
    pub tenths_field :
        (k w : ℕ) (x : F)
        → get_elem? ss k ≡ some (number w (to_tenths fl x))
        → IsTenths w x
        → (0 < w) × (w ≤ 12) × (2 ^ w ≤ 2 ^ 12)
        → tenths fl (uint bs (offset k ss) w) ≡ x
    tenths_field k w x e (n, small, scaled) (some_bits, narrow, fine) =
        let back : to_tenths fl x ≡ n = rw scaled (exact.tenths_back n (omega arith)) in
        ap (tenths fl) (
          nat_field bs ss c k w n (e ∙ ap (λ v. some (number w v)) back) some_bits (omega arith)
            small)
        ∙ sym scaled

    pub whole_field :
        (k w : ℕ) (x : F)
        → get_elem? ss k ≡ some (number w (to_u64 (round x)))
        → IsWhole w x
        → (0 < w) × (w ≤ 12) × (2 ^ w ≤ 2 ^ 12)
        → of_nat fl (uint bs (offset k ss) w) ≡ x
    whole_field k w x e (n, small, whole) (some_bits, narrow, fine) =
        let back : to_u64 (round x) ≡ n = rw whole (exact.whole_back n (omega arith)) in
        ap (of_nat fl) (
          nat_field bs ss c k w n (e ∙ ap (λ v. some (number w v)) back) some_bits (omega arith)
            small)
        ∙ sym whole

    abbrev signed_seg : ℕ → ℤ → Seg
    signed_seg w v = number w (as_u64 v % 2 ^ w)

    pub longitude_field :
        (k : ℕ) (x : F)
        → get_elem? ss k ≡ some (signed_seg 28 (deg_to_minutes fl x 10_000))
        → IsDegrees (2 ^ 27) 10_000 x
        → minutes_to_deg fl (int bs (offset k ss) 28) 10_000 ≡ x
    longitude_field k x e (v, small, scaled) =
        let back : deg_to_minutes fl x 10_000 ≡ v = rw scaled (exact.fine_back v small) in
        ap (λ r. minutes_to_deg fl r 10_000)
          (int_28 bs ss c k v (e ∙ ap (λ r. some (signed_seg 28 r)) back) small)
        ∙ sym scaled

    pub latitude_field :
        (k : ℕ) (x : F)
        → get_elem? ss k ≡ some (signed_seg 27 (deg_to_minutes fl x 10_000))
        → IsDegrees (2 ^ 26) 10_000 x
        → minutes_to_deg fl (int bs (offset k ss) 27) 10_000 ≡ x
    latitude_field k x e (v, small, scaled) =
        let back : deg_to_minutes fl x 10_000 ≡ v =
          rw scaled (exact.fine_back v (wider (2 ^ 26) (2 ^ 27) v (omega arith) small)) in
        ap (λ r. minutes_to_deg fl r 10_000)
          (int_27 bs ss c k v (e ∙ ap (λ r. some (signed_seg 27 r)) back) small)
        ∙ sym scaled

    pub coarse_longitude_field :
        (k : ℕ) (x : F)
        → get_elem? ss k ≡ some (signed_seg 18 (deg_to_minutes fl x 10))
        → IsDegrees (2 ^ 17) 10 x
        → minutes_to_deg fl (int bs (offset k ss) 18) 10 ≡ x
    coarse_longitude_field k x e (v, small, scaled) =
        let back : deg_to_minutes fl x 10 ≡ v = rw scaled (exact.coarse_back v small) in
        ap (λ r. minutes_to_deg fl r 10)
          (int_18 bs ss c k v (e ∙ ap (λ r. some (signed_seg 18 r)) back) small)
        ∙ sym scaled

    pub coarse_latitude_field :
        (k : ℕ) (x : F)
        → get_elem? ss k ≡ some (signed_seg 17 (deg_to_minutes fl x 10))
        → IsDegrees (2 ^ 16) 10 x
        → minutes_to_deg fl (int bs (offset k ss) 17) 10 ≡ x
    coarse_latitude_field k x e (v, small, scaled) =
        let back : deg_to_minutes fl x 10 ≡ v =
          rw scaled (exact.coarse_back v (wider (2 ^ 16) (2 ^ 17) v (omega arith) small)) in
        ap (λ r. minutes_to_deg fl r 10)
          (int_17 bs ss c k v (e ∙ ap (λ r. some (signed_seg 17 r)) back) small)
        ∙ sym scaled

  -- What `decode_bits` returns around the body of a message.
  abbrev pub message : Header → Body fl → Message F
  message h body = record {
    id = h.message_id;
    mmsi = h.user_id;
    packet = body.packet;
    position = body.position;
    name = body.name;
    ship_type = body.ship_type;
    imo = body.imo;
  }

  pub need_met : {A : Type 0} (bs : Bits) (n : ℕ) (a : A) → n ≤ bs.n → need bs n (ok a) ≡ ok a
  unfolding need len
  need_met bs n a h = ground arith

  -- `decode` on fields that were pushed and armored: the arm of the message decides.
  pub decode-transfer :
      (h : Header) (rest : List Seg) (body : Body fl)
      → FitsHeader h
      → ((bs : Bits) → Carries bs (header_segs h rest) → decode_body fl h.message_id bs h ≡ ok body)
      → decode fl
          (to_payload (push_all new (header_segs h rest))).0
          (to_payload (push_all new (header_segs h rest))).1
        ≡ ok (message h body)
  unfolding decode decode_bits need len
  decode-transfer h rest body fits arm =
      let (bs, done, c) = transfer (header_segs h rest) in
      rw (done, header_back bs h rest c fits, arm bs c) (ground (arith, c.n))
