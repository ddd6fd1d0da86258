-- ===== src/Nmea/Delivery.antt =====
-- A payload from `to_sentences` through `parse` and `Assembler::add` to the message.
use openseafeed.Base.{
  ℕ, suc, ◌+◌, ◌-◌, ◌%◌, ◌≤◌, ◌<◌, ◌≡◌, refl, ap, sym, ◌∙◌, arith, List, [], ◌∷◌, ◌++◌, map, length,
  Bytes, ◌==◌, if◌then◌else◌, All, none, some, Bool-cases, inl, inr,
}
use openseafeed.Base.Map.{get, IsDistinct, text_eq}
use openseafeed.Nmea.Number.{decimal}
use openseafeed.Nmea.Number.Tables.{parse_u8-decimal}
use openseafeed.Nmea.Sentence.{Sentence, Outcome, ok, ◌>>=◌, parse}
use openseafeed.Nmea.Sentence.Parse.{IsPayloadChar}
use openseafeed.Nmea.Encode.{chunks, sentences_from, to_sentences}
use openseafeed.Nmea.Encode.Line.{IsField, digits-IsField}
use openseafeed.Nmea.Encode.Chunks.{concat, concat-chunks, length-chunks, All-chunks}
use openseafeed.Nmea.Encode.RoundTrip.{parsed, parse-sentence}
use openseafeed.Nmea.Assembler.{Group, Assembler, key_of, join, no_group}
use openseafeed.Nmea.Assembler.Parts.{payloads, payload-join}
use openseafeed.Nmea.Assembler.InOrder.{Follow, sentences_of, add_all, add_all-in_order}

-- Each line is parsed, the line at index `i` at the time `clock i`; the first that fails ends it.
unfoldable pub parse_all : (ℕ → ℕ) → ℕ → List Bytes → Outcome (List (Sentence × ℕ))
parse_all clock i [] = ok []
parse_all clock i (line ∷ rest) = do
  s ← parse line
  more ← parse_all clock (suc i) rest
  ok ((s, clock i) ∷ more)

-- The messages that come out of lines.
unfoldable pub receive : Assembler → (ℕ → ℕ) → List Bytes → Outcome (List Group)
receive a clock lines = do sentences ← parse_all clock 0 lines; ok (add_all a sentences).1

module _ (total fill : ℕ) (seq channel : Bytes) where
  abbrev fill_at : ℕ → ℕ
  fill_at i = if i + 1 == total then fill else 0

  -- The sentences of a group from index `i` on.
  abbrev numbered : ℕ → List Bytes → List Sentence
  numbered i [] = []
  numbered i (chunk ∷ rest) =
      parsed total (i + 1) (fill_at i) seq channel chunk ∷ numbered (suc i) rest

  abbrev stamped : (ℕ → ℕ) → ℕ → List Bytes → List (Sentence × ℕ)
  stamped clock i [] = []
  stamped clock i (chunk ∷ rest) =
      (parsed total (i + 1) (fill_at i) seq channel chunk, clock i) ∷ stamped clock (suc i) rest

  sentences_of-stamped :
      (clock : ℕ → ℕ) (i : ℕ) (parts : List Bytes)
      → sentences_of (stamped clock i parts) ≡ numbered i parts
  sentences_of-stamped clock i [] = refl
  sentences_of-stamped clock i (chunk ∷ rest) =
      ap (◌∷◌ (parsed total (i + 1) (fill_at i) seq channel chunk))
        (sentences_of-stamped clock (suc i) rest)

  length-stamped :
      (clock : ℕ → ℕ) (i : ℕ) (parts : List Bytes) → length (stamped clock i parts) ≡ length parts
  length-stamped clock i [] = refl
  length-stamped clock i (chunk ∷ rest) = ap suc (length-stamped clock (suc i) rest)

  payloads-numbered : (i : ℕ) (parts : List Bytes) → payloads (numbered i parts) ≡ concat parts
  payloads-numbered i [] = refl
  payloads-numbered i (chunk ∷ rest) = ap (◌++◌ chunk) (payloads-numbered (suc i) rest)

  -- The message in hand, behind one more sentence.
  abbrev taken : ℕ → Bytes → Group → Group
  taken i chunk g =
      let s = parsed total (i + 1) (fill_at i) seq channel chunk in
      record {
        sentences = g.sentences ++ s.raw ∷ [];
        payload = g.payload ++ chunk;
        fill_bits = fill_at i;
        channel = channel;
      }

  -- The fill bits are those of the last sentence.
  fill_bits-numbered :
      (i : ℕ) (chunk : Bytes) (rest : List Bytes) (g : Group)
      → i + length (chunk ∷ rest) ≡ total
      → (join g (map some (numbered i (chunk ∷ rest)))).fill_bits ≡ fill
  unfolding join
  fill_bits-numbered i chunk [] g h = ground (arith, h)
  fill_bits-numbered i chunk (next ∷ rest) g h =
      fill_bits-numbered (suc i) next rest (taken i chunk g) (omega (arith, h))

  channel-numbered :
      (i : ℕ) (chunk : Bytes) (rest : List Bytes) (g : Group)
      → (join g (map some (numbered i (chunk ∷ rest)))).channel ≡ channel
  unfolding join
  channel-numbered i chunk [] g = refl
  channel-numbered i chunk (next ∷ rest) g = channel-numbered (suc i) next rest (taken i chunk g)

  -- Nothing else distinguishes the sentences of a group.
  Follow-stamped :
      (clock : ℕ → ℕ) (ttl since i : ℕ) (key : Bytes) (parts : List Bytes)
      → key_of (parsed total 1 0 seq channel []) ≡ key
      → ((j : ℕ) → clock j - since ≤ ttl)
      → Follow key total ttl since i (stamped clock i parts)
  unfolding key_of
  Follow-stamped clock ttl since i key [] same young = tt
  Follow-stamped clock ttl since i key (chunk ∷ rest) same young =
      (same, refl, omega arith, young i, Follow-stamped clock ttl since (suc i) key rest same young)

  module _ (totals : total < 256) (fills : fill ≤ 5) (seqs : IsField seq)
      (channels : IsField channel) where
    parse_all-sentences_from :
        (clock : ℕ → ℕ) (i : ℕ) (parts : List Bytes)
        → All (All IsPayloadChar) parts
        → i + length parts ≡ total
        → parse_all clock i (sentences_from i total seq channel fill parts)
          ≡ ok (stamped clock i parts)
    unfolding parse_all sentences_from
    parse_all-sentences_from clock i [] chars count = refl
    parse_all-sentences_from clock i (chunk ∷ rest) (c, cs) count =
        let head =
          parse-sentence total (i + 1) (fill_at i) seq channel chunk totals (omega arith)
            (omega (arith, count)) (ground (arith, fills)) seqs channels c in
        let tail = parse_all-sentences_from clock (suc i) rest cs (omega (arith, count)) in
        rw (head, tail) refl

abbrev seq_field : Bytes → ℕ → Bytes
seq_field payload seq = if length (chunks payload) == 1 then [] else decimal (seq % 10)

seq_field-IsField : (payload : Bytes) (seq : ℕ) → IsField (seq_field payload seq)
seq_field-IsField payload seq = elim (Bool-cases (length (chunks payload) == 1)) [
  | inl one ↦ rw one (digits-IsField [] tt)
  | inr several ↦
      rw several
        (let (_, digits) = parse_u8-decimal (seq % 10) (omega arith) in digits-IsField _ digits)
]

-- The key that the sentences of a group are pending under.
abbrev pub group_key : Bytes → Bytes → ℕ → Bytes
group_key payload channel seq =
    key_of (parsed (length (chunks payload)) 1 0 (seq_field payload seq) channel [])

-- The parsed sentences of a group go through the assembler.
deliver :
    (total fill : ℕ) (seq channel : Bytes) (a : Assembler) (clock : ℕ → ℕ) (parts : List Bytes)
    → 1 ≤ length parts
    → length parts ≡ total
    → IsDistinct a.pending
    → get (key_of (parsed total 1 0 seq channel [])) a.pending ≡ none
    → ((j : ℕ) → clock j - clock 0 ≤ a.ttl)
    → (add_all a (stamped total fill seq channel clock 0 parts)).1
      ≡ join no_group (map some (numbered total fill seq channel 0 parts)) ∷ []
unfolding key_of
deliver total fill seq channel a clock [] some_part count distinct absent young =
    absurd (omega arith)
deliver total fill seq channel a clock (chunk ∷ rest) some_part count distinct absent young =
    let key = key_of (parsed total 1 0 seq channel []) in
    let head = parsed total (0 + 1) (fill_at total fill seq channel 0) seq channel chunk in
    let (whole, _) =
      add_all-in_order a head (clock 0) (stamped total fill seq channel clock 1 rest) distinct
        absent
        (Follow-stamped total fill seq channel clock a.ttl (clock 0) 0 key (chunk ∷ rest) refl
          young)
        (sym count ∙ ap suc (sym (length-stamped total fill seq channel clock 1 rest))) in
    whole
    ∙ ap (λ r. join no_group (map some (head ∷ r)) ∷ [])
        (sentences_of-stamped total fill seq channel clock 1 rest)

filled :
    (total fill : ℕ) (seq channel : Bytes) (parts : List Bytes)
    → 1 ≤ length parts
    → length parts ≡ total
    → ((join no_group (map some (numbered total fill seq channel 0 parts))).fill_bits ≡ fill)
      × ((join no_group (map some (numbered total fill seq channel 0 parts))).channel ≡ channel)
filled total fill seq channel [] h count = absurd (omega arith)
filled total fill seq channel (chunk ∷ rest) h count = (
  fill_bits-numbered total fill seq channel 0 chunk rest no_group (omega (arith, count)),
  channel-numbered total fill seq channel 0 chunk rest no_group,
)

-- The lines of `to_sentences` for a payload of at most 15300 payload characters, with at most five fill
-- bits and a channel of single bytes without a comma, received in order by an assembler that has each key once and nothing
-- pending under the group's key, none more than `ttl` after the first, give one message: the payload,
-- with its fill bits and its channel.
pub receive-to_sentences :
    (payload channel : Bytes) (fill seq : ℕ) (a : Assembler) (clock : ℕ → ℕ)
    → All IsPayloadChar payload
    → length payload ≤ 15300
    → fill ≤ 5
    → IsField channel
    → IsDistinct a.pending
    → get (group_key payload channel seq) a.pending ≡ none
    → ((j : ℕ) → clock j - clock 0 ≤ a.ttl)
    → (g : Group) × (receive a clock (to_sentences payload fill channel seq) ≡ ok (g ∷ []))
      × (g.payload ≡ payload)
      × (g.fill_bits ≡ fill)
      × (g.channel ≡ channel)
unfolding receive to_sentences
receive-to_sentences payload channel fill seq a clock chars short fills channels distinct absent
      young =
    let parts = chunks payload in
    let total = length parts in
    let tag = seq_field payload seq in
    let (some_part, few) = length-chunks payload in
    let lines =
      parse_all-sentences_from total fill tag channel (omega (arith, few)) fills
        (seq_field-IsField payload seq) channels clock 0 parts
        (All-chunks IsPayloadChar payload chars) (omega arith) in
    let out = deliver total fill tag channel a clock parts some_part refl distinct absent young in
    let (bits, same_channel) = filled total fill tag channel parts some_part refl in
    let text =
      payload-join (numbered total fill tag channel 0 parts) no_group
      ∙ payloads-numbered total fill tag channel 0 parts
      ∙ concat-chunks payload in
    (
      join no_group (map some (numbered total fill tag channel 0 parts)),
      rw (lines, out) refl,
      text,
      bits,
      same_channel,
    )
