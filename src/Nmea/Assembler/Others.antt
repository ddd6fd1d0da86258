-- ===== src/Nmea/Assembler/Others.antt =====
-- What a sentence does to the messages of other keys.
use openseafeed.Base.{
  ℕ, ◌-◌, ◌≡◌, ◌≢◌, refl, ◌∙◌, Bytes, false, ◌==◌, leb, ltb, if◌then◌else◌, Bool-cases, inl, inr,
}
use openseafeed.Base.Map.{get, IsDistinct, kept, get-insert, get-remove, get-retain, text_eq}
use openseafeed.Nmea.Sentence.{Sentence}
use openseafeed.Nmea.Assembler.{Assembler, evict, key_of, add_fragment, add}
use openseafeed.Nmea.Assembler.Fragments.{next, add_fragment_more, add_fragment_full}

other_key : (j k : Bytes) → j ≢ k → text_eq.beq j k ≡ false
other_key j k differ = elim (Bool-cases (text_eq.beq j k)) [
  | inl same ↦ absurd (differ ((text_eq.beq_iff j k).0 same))
  | inr other ↦ other
]

add_fragment_other :
    (a : Assembler) (s : Sentence) (now : ℕ) (key : Bytes)
    → key ≢ key_of s
    → get key (add_fragment a s now).0.pending ≡ get key a.pending
add_fragment_other a s now key differ =
    let other = other_key key (key_of s) differ in
    elim (Bool-cases (ltb (next a s now).have s.fragments)) [
      | inl more ↦
          rw (add_fragment_more a s now more)
            (get-insert key (key_of s) (next a s now) a.pending ∙ rw other refl)
      | inr full ↦
          rw (add_fragment_full a s now full) (get-remove key (key_of s) a.pending ∙ rw other refl)
    ]

-- A sentence leaves the pending message of another key as it is: a sentence of several fragments
-- drops it when it is older than `ttl`, a single one does not even that.
pub get-add_other :
    (a : Assembler) (s : Sentence) (now : ℕ) (key : Bytes)
    → IsDistinct a.pending
    → key ≢ key_of s
    → get key (add a s now).0.pending ≡ (
        if s.fragments == 1
        then get key a.pending
        else kept (λ k p. leb (now - p.first_seen) a.ttl) key (get key a.pending))
unfolding add evict
get-add_other a s now key distinct differ = elim (Bool-cases (s.fragments == 1)) [
  | inl one ↦ rw one refl
  | inr several ↦ rw several (
      add_fragment_other (evict a now) s now key differ
      ∙ get-retain (λ k p. leb (now - p.first_seen) a.ttl) key a.pending distinct)
]
