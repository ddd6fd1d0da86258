-- ===== src/Ingest/Lines.antt =====
-- What a line does to the counters and the assembler, and what is published.
use openseafeed.Base.{
  ℕ, suc, ◌+◌, ◌≤◌, ◌≡◌, refl, subst, arith, [], ◌∷◌, length, Bytes, Option, none, some,
}
use openseafeed.Base.Trim.{trim}
use openseafeed.Nmea.Sentence.{Sentence, Outcome, ok, err, panic, parse}
use openseafeed.Nmea.Sentence.Parse.{parse-IsWellFormed}
use openseafeed.Nmea.Assembler.{Group, add}
use openseafeed.Nmea.Assembler.Fragments.{IsAssembler, add-IsAssembler}
use openseafeed.Feed.{raw}
use openseafeed.Ingest.{
  Intake, Published, envelope, publish, take_sentence, count_line, handle_line,
}

-- The assembler's messages wait for a part, and no more lines are invalid or complete a message than came.
pub record IsIntake (s : Intake) : Type 0 where
  pub pending : IsAssembler s.asm
  pub counted : s.counters.invalid + s.counters.groups ≤ s.counters.lines

-- A published message has a sentence, goes to its station's subject, and bears the station and the source.
abbrev pub IsFrom : (station_id source : Bytes) → Published → Type 0
IsFrom station_id source none = Unit {0}
IsFrom station_id source (some (subject, e)) =
    (subject ≡ raw station_id)
    × (1 ≤ length e.sentences)
    × (e.station_id ≡ station_id)
    × (e.source ≡ source)

ok_inj : {A : Type 0} → {x y : A} → ◌≡◌ {A = Outcome A} (ok x) (ok y) → x ≡ y
ok_inj h = cc

publish-IsFrom :
    (s : Intake) (station_id source : Bytes) (now_ms : ℕ) (out : Option Group)
    → IsAssembler s.asm
    → suc (s.counters.invalid + s.counters.groups) ≤ s.counters.lines
    → ((g : Group) → out ≡ some g → 1 ≤ length g.sentences)
    → IsIntake (publish s station_id source now_ms out).0
      × IsFrom station_id source (publish s station_id source now_ms out).1
unfolding publish envelope
publish-IsFrom s station_id source now_ms none valid room some_sentence =
    (record { pending = valid; counted = omega arith }, tt)
publish-IsFrom s station_id source now_ms (some g) valid room some_sentence =
    (record { pending = valid; counted = omega arith }, (refl, some_sentence g refl, refl, refl))

take_sentence-IsIntake :
    (s : Intake) (text station_id source : Bytes) (now now_ms : ℕ) (parsed : Outcome Sentence)
    (after : Intake) (out : Published)
    → IsIntake s
    → parse text ≡ parsed
    → take_sentence (count_line s) station_id source now now_ms parsed ≡ ok (after, out)
    → IsIntake after × IsFrom station_id source out
unfolding take_sentence count_line
take_sentence-IsIntake s text station_id source now now_ms (ok sentence) after out valid e h =
    let well = parse-IsWellFormed text sentence e in
    let (kept, whole) =
      add-IsAssembler s.asm sentence now valid.pending
        (record { first = well.first; last = well.within }) in
    let c = s.counters in
    let t : Intake = record {
      counters = record c { lines = c.lines + 1 };
      asm = (add s.asm sentence now).0;
    } in
    let (intake, from) =
      publish-IsFrom t station_id source now_ms (add s.asm sentence now).1 kept
        (omega (arith, valid.counted))
        (λ g eq. omega (arith, whole g eq, well.first, well.within)) in
    let same : publish t station_id source now_ms (add s.asm sentence now).1 ≡ (after, out) =
      ok_inj h in
    (subst (λ r. IsIntake r.0) same intake, subst (λ r. IsFrom station_id source r.1) same from)
take_sentence-IsIntake s text station_id source now now_ms (err e') after out valid e h =
    let c = s.counters in
    let t : Intake = record s {
      counters = record c { lines = c.lines + 1; invalid = c.invalid + 1 };
    } in
    let fine : IsIntake t = record {
      pending = valid.pending;
      counted = omega (arith, valid.counted);
    } in
    let same : ◌≡◌ {A = Intake × Published} (t, none) (after, out) = ok_inj h in
    (subst (λ r. IsIntake r.0) same fine, subst (λ r. IsFrom station_id source r.1) same tt)
take_sentence-IsIntake s text station_id source now now_ms panic after out valid e h = cc

-- A line leaves the counters and the assembler in order, where it does not panic: the pending messages
-- wait for a part, and no more lines are invalid or complete a message than came. A message that is
-- published has a sentence, goes to the subject of its station, and bears the station and the source.
pub handle_line-IsIntake :
    (s : Intake) (line station_id source : Bytes) (now now_ms : ℕ) (after : Intake)
    (out : Published)
    → IsIntake s
    → handle_line s line station_id source now now_ms ≡ ok (after, out)
    → IsIntake after × IsFrom station_id source out
unfolding handle_line
handle_line-IsIntake s line station_id source now now_ms after out valid h = by_text (trim line) h
  where
    by_text :
        (text : Bytes)
        → (elim text as (λ _. Outcome (Intake × Published)) [
          | [] ↦ ok (s, none)
          | c ∷ rest ↦ take_sentence (count_line s) station_id source now now_ms (parse (c ∷ rest))
        ])
          ≡ ok (after, out)
        → IsIntake after × IsFrom station_id source out
    by_text [] h =
        let same : ◌≡◌ {A = Intake × Published} (s, none) (after, out) = ok_inj h in
        (subst (λ r. IsIntake r.0) same valid, subst (λ r. IsFrom station_id source r.1) same tt)
    by_text (c ∷ rest) h =
        take_sentence-IsIntake s (c ∷ rest) station_id source now now_ms (parse (c ∷ rest)) after
          out valid refl h
