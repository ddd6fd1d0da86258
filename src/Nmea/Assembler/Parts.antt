-- ===== src/Nmea/Assembler/Parts.antt =====
-- The parts of a pending message: how many there are, and what `join` makes of them.
use openseafeed.Base.{
  ℕ, zero, suc, ◌+◌, ◌≤◌, ◌<◌, ◌≡◌, refl, ap, sym, ◌∙◌, append-nil, arith, List, [], ◌∷◌, ◌++◌, map,
  length, get_or, set, replicate, Option, none, some, Bytes, append_assoc, length-append,
}
use openseafeed.Nmea.Sentence.{Sentence}
use openseafeed.Nmea.Assembler.{Group, join}

-- How many parts have arrived.
abbrev pub stored : List (Option Sentence) → ℕ
stored [] = 0
stored (none ∷ parts) = stored parts
stored (some s ∷ parts) = suc (stored parts)

pub stored-le : (parts : List (Option Sentence)) → stored parts ≤ length parts
stored-le [] = omega arith
stored-le (none ∷ parts) = omega (arith, stored-le parts)
stored-le (some s ∷ parts) = omega (arith, stored-le parts)

pub stored-replicate : (n : ℕ) → stored (replicate n none) ≡ 0
stored-replicate zero = refl
stored-replicate (suc n) = stored-replicate n

-- A part in an empty place counts.
pub stored-set_new :
    (parts : List (Option Sentence)) (i : ℕ) (s : Sentence)
    → i < length parts
    → get_or parts i none ≡ none
    → stored (set parts i (some s)) ≡ suc (stored parts)
stored-set_new [] i s lt h = absurd (omega arith)
stored-set_new (none ∷ parts) zero s lt h = refl
stored-set_new (some x ∷ parts) zero s lt h = absurd (cc)
stored-set_new (none ∷ parts) (suc i) s lt h = stored-set_new parts i s (omega arith) h
stored-set_new (some x ∷ parts) (suc i) s lt h = ap suc (stored-set_new parts i s (omega arith) h)

-- One in a place that is taken does not.
pub stored-set_taken :
    (parts : List (Option Sentence)) (i : ℕ) (s x : Sentence)
    → get_or parts i none ≡ some x
    → stored (set parts i (some s)) ≡ stored parts
stored-set_taken [] i s x h = refl
stored-set_taken (none ∷ parts) zero s x h = absurd (cc)
stored-set_taken (some y ∷ parts) zero s x h = refl
stored-set_taken (none ∷ parts) (suc i) s x h = stored-set_taken parts i s x h
stored-set_taken (some y ∷ parts) (suc i) s x h = ap suc (stored-set_taken parts i s x h)

-- A message with as many parts as places has one in each place, and `join` takes them all.
pub length-join :
    (parts : List (Option Sentence)) (g : Group)
    → length (join g parts).sentences ≡ length g.sentences + stored parts
unfolding join
length-join [] g = omega arith
length-join (none ∷ parts) g = length-join parts g
length-join (some s ∷ parts) g = omega (
  arith,
  length-join parts (record {
    sentences = g.sentences ++ s.raw ∷ [];
    payload = g.payload ++ s.payload;
    fill_bits = s.fill_bits;
    channel = s.channel;
  }),
  length-append g.sentences (s.raw ∷ []),
)

abbrev pub payloads : List Sentence → Bytes
payloads [] = []
payloads (s ∷ rest) = s.payload ++ payloads rest

-- The payload of a message is its parts' payloads, one behind the other.
pub payload-join :
    (sentences : List Sentence) (g : Group)
    → (join g (map some sentences)).payload ≡ g.payload ++ payloads sentences
unfolding join
payload-join [] g = sym (append-nil g.payload)
payload-join (s ∷ rest) g = payload-join rest _ ∙ append_assoc g.payload s.payload (payloads rest)

-- A message takes the fill bits of its last part.
pub fill_bits-join :
    (sentences : List Sentence) (last : Sentence) (g : Group)
    → (join g (map some (sentences ++ last ∷ []))).fill_bits ≡ last.fill_bits
unfolding join
fill_bits-join [] last g = refl
fill_bits-join (s ∷ rest) last g = fill_bits-join rest last _
