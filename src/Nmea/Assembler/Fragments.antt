-- ===== src/Nmea/Assembler/Fragments.antt =====
-- The pending messages of an assembler, over the calls of `add`.
use openseafeed.Base.{
  subst, ap, ℕ, ◌-◌, ◌≤◌, ◌<◌, ◌≡◌, refl, sym, ◌∙◌, arith, length, get_or, set, Option, none, some,
  Bytes, Bool, true, false, ◌==◌, if◌then◌else◌, ltb, leb, Bool-cases, Option-cases, inl, inr,
  length-set, length-replicate,
}
use openseafeed.Base.Map.{
  get, insert, remove, IsDistinct, kept, get-insert, get-remove, get-retain, insert-IsDistinct,
  remove-IsDistinct, retain-IsDistinct, text_eq,
}
use openseafeed.Nmea.Sentence.{Sentence}
use openseafeed.Nmea.Assembler.{
  Group, Pending, Assembler, new, evict, key_of, fresh, entry, store_part, join, no_group,
  add_fragment, add,
}
use openseafeed.Nmea.Assembler.Parts.{
  stored, stored-le, stored-replicate, stored-set_new, stored-set_taken, length-join,
}

-- A pending message counts its parts, and a part is missing.
pub record IsPending (p : Pending) : Type 0 where
  pub counted : stored p.parts ≡ p.have
  pub missing : p.have < length p.parts

-- Each key of the map stands once, and has a message that waits for a part.
pub record IsAssembler (a : Assembler) : Type 0 where
  pub distinct : IsDistinct a.pending
  pub waiting : (key : Bytes) (p : Pending) → get key a.pending ≡ some p → IsPending p

-- What `parse` guarantees of a sentence.
pub record IsNumbered (s : Sentence) : Type 0 where
  pub first : 1 ≤ s.fragment
  pub last : s.fragment ≤ s.fragments

pub new-IsAssembler : (ttl : ℕ) → IsAssembler (new ttl)
unfolding new
new-IsAssembler ttl = record { distinct = tt; waiting = λ key p h. unfold get in absurd (cc) }

kept-some :
    (f : Bytes → Pending → Bool) (key : Bytes) (q p : Pending)
    → kept f key (some q) ≡ some p
    → ◌≡◌ {A = Option Pending} (some q) (some p)
kept-some f key q p h = elim (Bool-cases (f key q)) [
  | inl kept_in ↦ subst (λ b. (if b then some q else none) ≡ some p) kept_in h
  | inr out ↦
      absurd
        (let e : none ≡ some p = subst (λ b. (if b then some q else none) ≡ some p) out h in cc)
]

evict-waiting : (a : Assembler) (now : ℕ) → IsAssembler a → IsAssembler (evict a now)
unfolding evict
evict-waiting a now valid = record {
  distinct = retain-IsDistinct _ a.pending valid.distinct;
  waiting = λ key p h.
      let passed : kept (λ k p. leb (now - p.first_seen) a.ttl) key (get key a.pending) ≡ some p =
        sym (get-retain _ key a.pending valid.distinct) ∙ h in
      elim (Option-cases (get key a.pending)) [
        | inl out ↦ absurd (
            let e : none ≡ some p =
              subst (λ o. kept (λ k p. leb (now - p.first_seen) a.ttl) key o ≡ some p) out passed in
            cc)
        | inr (q, there) ↦ valid.waiting key p (
            there
            ∙ kept-some (λ k r. leb (now - r.first_seen) a.ttl) key q p
                (subst (λ o. kept (λ k p. leb (now - p.first_seen) a.ttl) key o ≡ some p) there
                  passed))
      ];
}

-- The entry that a part is stored in.
entry-counted :
    (o : Option Pending) (total now : ℕ)
    → ((p : Pending) → o ≡ some p → IsPending p)
    → (stored (entry o total now).parts ≡ (entry o total now).have)
      × (length (entry o total now).parts ≡ total)
unfolding entry fresh
entry-counted none total now h = (stored-replicate total, length-replicate total none)
entry-counted (some p) total now h = elim (Bool-cases (length p.parts == total)) [
  | inl same ↦ rw same ((h p refl).counted, ground (arith, same))
  | inr other ↦ rw other (stored-replicate total, length-replicate total none)
]

store_part-counted :
    (p : Pending) (s : Sentence)
    → stored p.parts ≡ p.have
    → length p.parts ≡ s.fragments
    → IsNumbered s
    → (stored (store_part p s).parts ≡ (store_part p s).have)
      × (length (store_part p s).parts ≡ s.fragments)
unfolding store_part
store_part-counted p s counted long numbered =
    let within : s.fragment - 1 < length p.parts = omega (arith, numbered.first, numbered.last) in
    let long' : length (set p.parts (s.fragment - 1) (some s)) ≡ s.fragments =
      length-set p.parts (s.fragment - 1) (some s) ∙ long in
    elim (Option-cases (get_or p.parts (s.fragment - 1) none)) [
      | inl empty ↦ (
        stored-set_new p.parts (s.fragment - 1) s within empty
            ∙ rw (store_part, empty) (omega (arith, counted)),
        long',
      )
      | inr (x, taken) ↦ (
        stored-set_taken p.parts (s.fragment - 1) s x taken ∙ rw (store_part, taken) counted,
        long',
      )
    ]

some_inj : {A : Type 0} → {x y : A} → ◌≡◌ {A = Option A} (some x) (some y) → x ≡ y
some_inj h = cc

-- A sentence of several fragments, after the eviction.
module _ (a : Assembler) (s : Sentence) (now : ℕ) where
  abbrev pub next : Pending
  next = store_part (entry (get (key_of s) a.pending) s.fragments now) s

  pub add_fragment_more :
      ltb next.have s.fragments ≡ true
      → add_fragment a s now ≡ (record a { pending = insert (key_of s) next a.pending }, none)
  unfolding add_fragment
  add_fragment_more more = rw more refl

  pub add_fragment_full :
      ltb next.have s.fragments ≡ false
      → add_fragment a s now
        ≡ (record a { pending = remove (key_of s) a.pending }, some (join no_group next.parts))
  unfolding add_fragment
  add_fragment_full full = rw full refl

  module _ (valid : IsAssembler a) (numbered : IsNumbered s) where
    next-counted : (stored next.parts ≡ next.have) × (length next.parts ≡ s.fragments)
    next-counted =
        let (counted, long) =
          entry-counted (get (key_of s) a.pending) s.fragments now (valid.waiting (key_of s)) in
        store_part-counted _ s counted long numbered

    inserted :
        ltb next.have s.fragments ≡ true
        → IsAssembler (record a { pending = insert (key_of s) next a.pending })
    inserted more = record {
      distinct = insert-IsDistinct (key_of s) next a.pending valid.distinct;
      waiting = λ key p h.
          let there = sym (get-insert key (key_of s) next a.pending) ∙ h in
          elim (Bool-cases (text_eq.beq key (key_of s))) [
            | inl same ↦
                let is_next : next ≡ p =
                  some_inj (
                    subst (λ b. (if b then some next else get key a.pending) ≡ some p) same
                      there) in
                subst IsPending is_next (
                  let (counted, long) = next-counted in
                  record { counted = counted; missing = ground (arith, more, long) })
            | inr other ↦
                valid.waiting key p
                  (subst (λ b. (if b then some next else get key a.pending) ≡ some p) other there)
          ];
    }

    removed : IsAssembler (record a { pending = remove (key_of s) a.pending })
    removed = record {
      distinct = remove-IsDistinct (key_of s) a.pending valid.distinct;
      waiting = λ key p h.
          let there = sym (get-remove key (key_of s) a.pending) ∙ h in
          elim (Bool-cases (text_eq.beq key (key_of s))) [
            | inl same ↦ absurd (
                let e : none ≡ some p =
                  subst (λ b. (if b then none else get key a.pending) ≡ some p) same there in
                cc)
            | inr other ↦
                valid.waiting key p
                  (subst (λ b. (if b then none else get key a.pending) ≡ some p) other there)
          ];
    }

    add_fragment-IsAssembler : IsAssembler (add_fragment a s now).0
    add_fragment-IsAssembler = elim (Bool-cases (ltb next.have s.fragments)) [
      | inl more ↦ rw (add_fragment_more more) (inserted more)
      | inr full ↦ rw (add_fragment_full full) removed
    ]

    add_fragment_complete :
        (g : Group) → (add_fragment a s now).1 ≡ some g → length g.sentences ≡ s.fragments
    add_fragment_complete g h = elim (Bool-cases (ltb next.have s.fragments)) [
      | inl more ↦
          absurd
            (let e : none ≡ some g = subst (λ r. r.1 ≡ some g) (add_fragment_more more) h in cc)
      | inr full ↦
          let e = some_inj (subst (λ r. r.1 ≡ some g) (add_fragment_full full) h) in
          let (counted, long) = next-counted in
          let joined = length-join next.parts no_group in
          let bound = stored-le next.parts in
          sym (ap (λ g. length g.sentences) e) ∙ ground (arith, joined, full)
    ]

-- From a state where every pending message waits for a part, a sentence with a number from 1 to the
-- number of its fragments leaves such a state, and a message that comes out has a sentence for each of
-- its fragments.
pub add-IsAssembler :
    (a : Assembler) (s : Sentence) (now : ℕ)
    → IsAssembler a
    → IsNumbered s
    → IsAssembler (add a s now).0
      × ((g : Group) → (add a s now).1 ≡ some g → length g.sentences ≡ s.fragments)
unfolding add
add-IsAssembler a s now valid numbered = elim (Bool-cases (s.fragments == 1)) [
  | inl one ↦
      rw one (valid, λ g h. sym (ap (λ g. length g.sentences) (some_inj h)) ∙ ground (arith, one))
  | inr several ↦ rw several (
    add_fragment-IsAssembler (evict a now) s now (evict-waiting a now valid) numbered,
    add_fragment_complete (evict a now) s now (evict-waiting a now valid) numbered,
  )
]
