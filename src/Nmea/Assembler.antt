-- ===== src/Nmea/Assembler.antt =====
-- crates/nmea/src/assembler.rs. An `Instant` is a number, and `duration_since` stops at zero as Rust's does.
pub mod Parts
pub mod Fragments
pub mod InOrder
pub mod Others
use openseafeed.Base.{
  ℕ, zero, suc, ◌+◌, ◌-◌, List, [], ◌∷◌, ◌++◌, length, get_or, set, replicate, Bytes, Bool, ◌==◌,
  not, leb, ltb, if◌then◌else◌, Option, none, some,
}
use openseafeed.Base.Map.{Map, get, insert, remove, retain, text_eq}
use openseafeed.Nmea.Sentence.{Sentence}

pub record Group : Type 0 where
  pub sentences : List Bytes
  pub payload : Bytes
  pub fill_bits : ℕ
  pub channel : Bytes

pub record Pending : Type 0 where
  pub parts : List (Option Sentence)
  pub have : ℕ
  pub first_seen : ℕ

pub record Assembler : Type 0 where
  pub ttl : ℕ
  pub pending : Map Bytes Pending

unfoldable pub new : ℕ → Assembler
new ttl = record { ttl = ttl; pending = [] }

unfoldable pub evict : Assembler → ℕ → Assembler
evict a now = record a { pending = retain (λ key p. leb (now - p.first_seen) a.ttl) a.pending }

-- `format!("{}|{}|{}", …)`
unfoldable pub key_of : Sentence → Bytes
key_of s = s.talker ++ (b'|' ∷ (s.channel ++ (b'|' ∷ s.seq_id)))

unfoldable pub fresh : ℕ → ℕ → Pending
fresh total now = record { parts = replicate total none; have = 0; first_seen = now }

-- The entry for the key: a new one if there is none, or if it has another number of fragments.
unfoldable pub entry : Option Pending → ℕ → ℕ → Pending
entry none total now = fresh total now
entry (some p) total now = if length p.parts == total then p else fresh total now

unfoldable pub store_part : Pending → Sentence → Pending
store_part p s =
    let idx = s.fragment - 1 in
    record p {
      parts = set p.parts idx (some s);
      have = elim (get_or p.parts idx none) [ none ↦ p.have + 1 | some _ ↦ p.have ];
    }

-- The loop over the parts that are there, behind the group in hand.
unfoldable pub join : Group → List (Option Sentence) → Group
join g [] = g
join g (none ∷ parts) = join g parts
join g (some part ∷ parts) =
    join
      (record {
        sentences = g.sentences ++ part.raw ∷ [];
        payload = g.payload ++ part.payload;
        fill_bits = part.fill_bits;
        channel = part.channel;
      })
      parts

abbrev pub no_group : Group
no_group = record { sentences = []; payload = []; fill_bits = 0; channel = [] }

abbrev pub single : Sentence → Group
single s = record {
  sentences = s.raw ∷ [];
  payload = s.payload;
  fill_bits = s.fill_bits;
  channel = s.channel;
}

-- The part of `add` for a sentence of several fragments, after the eviction.
unfoldable pub add_fragment : Assembler → Sentence → ℕ → Assembler × Option Group
add_fragment a s now =
    let key = key_of s in
    let p = store_part (entry (get key a.pending) s.fragments now) s in
    if ltb p.have s.fragments
    then (record a { pending = insert key p a.pending }, none)
    else (record a { pending = remove key a.pending }, some (join no_group p.parts))

unfoldable pub add : Assembler → Sentence → ℕ → Assembler × Option Group
add a s now = if s.fragments == 1 then (a, some (single s)) else add_fragment (evict a now) s now
