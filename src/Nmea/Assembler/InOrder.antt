-- ===== src/Nmea/Assembler/InOrder.antt =====
-- The sentences of one message, given to the assembler in order.
use openseafeed.Base.{
  ℕ, suc, ◌+◌, ◌-◌, ◌≤◌, ◌≡◌, ◌≢◌, refl, sym, ap, subst, ◌∙◌, arith, List, [], ◌∷◌, ◌++◌, map,
  append_assoc, append-nil, length, get_or, set, replicate, Option, none, some, Bytes, true, false,
  ◌==◌, ltb, leb, length-append, length-replicate, length-map,
}
use openseafeed.Base.Map.{
  get, insert, remove, IsDistinct, get-insert_self, get-remove, get-retain, insert-IsDistinct,
  retain-IsDistinct, text_eq, beq_refl,
}
use openseafeed.Nmea.Sentence.{Sentence}
use openseafeed.Nmea.Assembler.{
  Group, Pending, Assembler, evict, key_of, fresh, entry, store_part, join, no_group, add_fragment,
  add,
}
use openseafeed.Nmea.Assembler.Fragments.{next, add_fragment_more, add_fragment_full}

-- A message whose first sentences are there, `n` more to come.
abbrev pub waiting : List Sentence → ℕ → ℕ → Pending
waiting done n since = record {
  parts = map some done ++ replicate n none;
  have = length done;
  first_seen = since;
}

place_empty :
    (done : List Sentence) (n : ℕ)
    → ◌≡◌ {A = Option Sentence}
        (get_or (map some done ++ replicate (suc n) none) (length done) none)
        none
place_empty [] n = refl
place_empty (s ∷ done) n = place_empty done n

place_filled :
    (done : List Sentence) (s : Sentence) (n : ℕ)
    → set (map some done ++ replicate (suc n) none) (length done) (some s)
      ≡ map some (done ++ s ∷ []) ++ replicate n none
place_filled [] s n = refl
place_filled (x ∷ done) s n = ap (◌∷◌ (some x)) (place_filled done s n)

store_part-waiting :
    (done : List Sentence) (s : Sentence) (n since : ℕ)
    → s.fragment ≡ suc (length done)
    → store_part (waiting done (suc n) since) s ≡ waiting (done ++ s ∷ []) n since
unfolding store_part
store_part-waiting done s n since at =
    let place : s.fragment - 1 ≡ length done = omega (arith, at) in
    rw (place, place_empty done n, place_filled done s n)
      (let grown : length done + 1 ≡ length (done ++ s ∷ []) = sym (length-append done (s ∷ [])) in
        rw grown refl)

length-waiting :
    (done : List Sentence) (n since : ℕ) → length (waiting done n since).parts ≡ length done + n
length-waiting done n since =
    let h1 : length (map some done) ≡ length done = length-map some done in
    let h2 : length {A = Option Sentence} (replicate n none) ≡ n = length-replicate n none in
    length-append (map some done) (replicate n none) ∙ omega (arith, h1, h2)

-- A pending message that is young enough stays.
get-evict :
    (a : Assembler) (now : ℕ) (key : Bytes) (p : Pending)
    → IsDistinct a.pending
    → get key a.pending ≡ some p
    → now - p.first_seen ≤ a.ttl
    → get key (evict a now).pending ≡ some p
unfolding evict
get-evict a now key p distinct there young =
    let keeps : leb (now - p.first_seen) a.ttl ≡ true = ground (arith, young) in
    get-retain (λ k p. leb (now - p.first_seen) a.ttl) key a.pending distinct
    ∙ rw there (rw keeps refl)

get-evict-none :
    (a : Assembler) (now : ℕ) (key : Bytes)
    → IsDistinct a.pending
    → get key a.pending ≡ none
    → get key (evict a now).pending ≡ none
unfolding evict
get-evict-none a now key distinct absent =
    get-retain (λ k p. leb (now - p.first_seen) a.ttl) key a.pending distinct ∙ rw absent refl

entry_kept : (p : Pending) (total now : ℕ) → length p.parts ≡ total → entry (some p) total now ≡ p
unfolding entry
entry_kept p total now h = ground (arith, h)

abbrev pub of_group : Option Group → List Group → List Group
of_group none groups = groups
of_group (some g) groups = g ∷ groups

-- `add` over sentences with the times at which they come.
unfoldable pub add_all : Assembler → List (Sentence × ℕ) → Assembler × List Group
add_all a [] = (a, [])
add_all a ((s, now) ∷ rest) =
    let (b, out) = add a s now in let (c, groups) = add_all b rest in (c, of_group out groups)

-- Sentences of the message `key` of `total` fragments, numbered from `i + 1`, none of them more than `ttl` after `since`.
abbrev pub Follow : (key : Bytes) → (total ttl since i : ℕ) → List (Sentence × ℕ) → Type 0
Follow key total ttl since i [] = Unit
Follow key total ttl since i ((s, now) ∷ rest) =
    (key_of s ≡ key)
    × (s.fragments ≡ total)
    × (s.fragment ≡ suc i)
    × (now - since ≤ ttl)
    × Follow key total ttl since (suc i) rest

-- One sentence of several, for a message whose first sentences are there.
module _ (a : Assembler) (s : Sentence) (now : ℕ) (done : List Sentence) (n since : ℕ)
    (several : s.fragments ≢ 1) (at : s.fragment ≡ suc (length done))
    (total : s.fragments ≡ length done + suc n)
    (held : entry (get (key_of s) (evict a now).pending) s.fragments now
      ≡ waiting done (suc n) since) where
  next_is : next (evict a now) s now ≡ waiting (done ++ s ∷ []) n since
  next_is = rw held (store_part-waiting done s n since at)

  add_is_fragment : add a s now ≡ add_fragment (evict a now) s now
  unfolding add
  add_is_fragment = let no : (s.fragments == 1) ≡ false = ground (arith, several) in rw no refl

  have_is : (next (evict a now) s now).have ≡ suc (length done)
  have_is = rw next_is (length-append done (s ∷ []) ∙ omega arith)

  add_more :
      1 ≤ n
      → add a s now ≡ (
        record (evict a now) {
          pending = insert (key_of s) (waiting (done ++ s ∷ []) n since) (evict a now).pending;
        },
        none,
      )
  add_more h =
      let more : ltb (next (evict a now) s now).have s.fragments ≡ true =
        ground (arith, have_is, total, h) in
      add_is_fragment ∙ add_fragment_more (evict a now) s now more ∙ rw next_is refl

  add_full :
      n ≡ 0
      → add a s now ≡ (
        record (evict a now) { pending = remove (key_of s) (evict a now).pending },
        some (join no_group (map some (done ++ s ∷ []))),
      )
  add_full h =
      let full : ltb (next (evict a now) s now).have s.fragments ≡ false =
        ground (arith, have_is, total, h) in
      add_is_fragment
      ∙ add_fragment_full (evict a now) s now full
      ∙ rw (next_is, h) (rw (append-nil (map some (done ++ s ∷ []))) refl)

add_all_step :
    (a b : Assembler) (s : Sentence) (now : ℕ) (out : Option Group) (rest : List (Sentence × ℕ))
    → add a s now ≡ (b, out)
    → add_all a ((s, now) ∷ rest) ≡ ((add_all b rest).0, of_group out (add_all b rest).1)
unfolding add_all
add_all_step a b s now out rest h = rw h refl

abbrev pub sentences_of : List (Sentence × ℕ) → List Sentence
sentences_of [] = []
sentences_of ((s, now) ∷ rest) = s ∷ sentences_of rest

-- The message comes out whole, and is no longer pending.
abbrev pub Delivers : Assembler → Bytes → List (Sentence × ℕ) → List Sentence → Type 0
Delivers a key rest whole =
    ((add_all a rest).1 ≡ join no_group (map some whole) ∷ [])
    × (get key (add_all a rest).0.pending ≡ none)

add_all_nil :
    (key : Bytes) (g : Group) (a : Assembler)
    → get key a.pending ≡ none
    → ((g ∷ (add_all a []).1) ≡ g ∷ []) × (get key (add_all a []).0.pending ≡ none)
unfolding add_all
add_all_nil key g a h = (refl, h)

evict-ttl : (a : Assembler) (now : ℕ) → (evict a now).ttl ≡ a.ttl
unfolding evict
evict-ttl a now = refl

evict-IsDistinct :
    (a : Assembler) (now : ℕ) → IsDistinct a.pending → IsDistinct (evict a now).pending
unfolding evict
evict-IsDistinct a now h = retain-IsDistinct _ a.pending h

add_all-rest :
    (rest : List (Sentence × ℕ)) (s : Sentence) (now : ℕ) (done : List Sentence) (a : Assembler)
    (key : Bytes) (total since : ℕ)
    → IsDistinct a.pending
    → entry (get key (evict a now).pending) total now ≡ waiting done (suc (length rest)) since
    → Follow key total a.ttl since (length done) ((s, now) ∷ rest)
    → total ≡ length done + suc (length rest)
    → total ≢ 1
    → Delivers a key ((s, now) ∷ rest) (done ++ s ∷ sentences_of rest)
add_all-rest [] s now done a key total since distinct held (keys, totals, at, young, _) count
      several =
    let held' =
      subst (λ t. entry (get (key_of s) (evict a now).pending) t now ≡ waiting done 1 since)
        (sym totals)
        (subst (λ k. entry (get k (evict a now).pending) total now ≡ waiting done 1 since)
          (sym keys) held) in
    let out =
      add_full a s now done 0 since (λ e. several (sym totals ∙ e)) at (totals ∙ count) held'
        refl in
    let step = add_all_step a _ s now _ [] out in
    let gone : get key (remove (key_of s) (evict a now).pending) ≡ none =
      get-remove key (key_of s) (evict a now).pending ∙ rw (keys, beq_refl key) refl in
    subst
      (λ r. (r.1 ≡ join no_group (map some (done ++ s ∷ [])) ∷ []) × (get key r.0.pending ≡ none))
      (sym step) (add_all_nil key _ _ gone)
add_all-rest ((t, later) ∷ rest) s now done a key total since distinct held
      (keys, totals, at, young, follow) count several =
    let n = suc (length rest) in
    let held' =
      subst (λ t. entry (get (key_of s) (evict a now).pending) t now ≡ waiting done (suc n) since)
        (sym totals)
        (subst (λ k. entry (get k (evict a now).pending) total now ≡ waiting done (suc n) since)
          (sym keys) held) in
    let out =
      add_more a s now done n since (λ e. several (sym totals ∙ e)) at (totals ∙ count) held'
        (omega arith) in
    let w = waiting (done ++ s ∷ []) n since in
    let b : Assembler = record (evict a now) {
      pending = insert (key_of s) w (evict a now).pending;
    } in
    let step = add_all_step a _ s now _ ((t, later) ∷ rest) out in
    let distinct' : IsDistinct b.pending =
      insert-IsDistinct (key_of s) w (evict a now).pending (evict-IsDistinct a now distinct) in
    let longer : length (done ++ s ∷ []) ≡ suc (length done) =
      length-append done (s ∷ []) ∙ omega arith in
    let there : get key b.pending ≡ some w =
      subst (λ k. get k b.pending ≡ some w) keys
        (get-insert_self (key_of s) w (evict a now).pending) in
    let follow' : Follow key total b.ttl since (length (done ++ s ∷ [])) ((t, later) ∷ rest) =
      subst (λ i. Follow key total b.ttl since i ((t, later) ∷ rest)) (sym longer)
        (subst (λ l. Follow key total l since (suc (length done)) ((t, later) ∷ rest))
          (sym (evict-ttl a now)) follow) in
    let stays : get key (evict b later).pending ≡ some w =
      get-evict b later key w distinct' there follow'.3 in
    let held_next : entry (get key (evict b later).pending) total later ≡ w = rw stays (
      entry_kept w total later
        (length-waiting (done ++ s ∷ []) n since ∙ omega (arith, longer, count))) in
    let rest_out =
      add_all-rest rest t later (done ++ s ∷ []) b key total since distinct' held_next follow'
        (omega (arith, longer, count)) several in
    subst (Delivers a key ((s, now) ∷ (t, later) ∷ rest))
      (append_assoc done (s ∷ []) (t ∷ sentences_of rest))
      (subst
        (λ r.
          (r.1 ≡ join no_group (map some ((done ++ s ∷ []) ++ t ∷ sentences_of rest)) ∷ [])
          × (get key r.0.pending ≡ none))
        (sym step) rest_out)

add_one :
    (a : Assembler) (s : Sentence) (now : ℕ)
    → s.fragments ≡ 1
    → get (key_of s) a.pending ≡ none
    → Delivers a (key_of s) ((s, now) ∷ []) (s ∷ [])
unfolding add_all add join
add_one a s now one absent =
    let yes_one : (s.fragments == 1) ≡ true = ground (arith, one) in rw yes_one (refl, absent)

entry-none : (total now : ℕ) → entry none total now ≡ waiting [] total now
unfolding entry fresh
entry-none total now = refl

-- The sentences of a message that is not pending, numbered from 1 to the number of its fragments and
-- given in order, none more than `ttl` after the first, to an assembler with each key once, come out as one message, made
-- of all of them in order; no message comes out before the last sentence, and none is pending for the key after it.
pub add_all-in_order :
    (a : Assembler) (s : Sentence) (now : ℕ) (rest : List (Sentence × ℕ))
    → IsDistinct a.pending
    → get (key_of s) a.pending ≡ none
    → Follow (key_of s) s.fragments a.ttl now 0 ((s, now) ∷ rest)
    → s.fragments ≡ suc (length rest)
    → Delivers a (key_of s) ((s, now) ∷ rest) (s ∷ sentences_of rest)
add_all-in_order a s now [] distinct absent follow count = add_one a s now count absent
add_all-in_order a s now (t ∷ rest) distinct absent follow count =
    let held : entry (get (key_of s) (evict a now).pending) s.fragments now
        ≡ waiting [] (suc (length (t ∷ rest))) now =
      rw (get-evict-none a now (key_of s) distinct absent, count) (entry-none _ now) in
    add_all-rest (t ∷ rest) s now [] a (key_of s) s.fragments now distinct held follow
      (omega (arith, count)) (omega (arith, count))
