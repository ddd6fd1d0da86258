-- ===== src/Pipeline/Dedupe/Laws.antt =====
-- When a payload counts as seen.
use openseafeed.Base.{
  ℕ, ◌-◌, ◌≡◌, refl, sym, ◌∙◌, Bytes, true, false, leb, ltb, Option, none, some, Bool-cases, inl,
  inr, some_inj, none-ne-some, ◌↔◌, ◌≤◌, arith, if◌then◌else◌,
}
use openseafeed.Base.Map.{
  get, insert, nat_eq, IsDistinct, kept, get-retain, get-insert_self, insert-IsDistinct,
  retain-IsDistinct,
}
use openseafeed.Pipeline.Dedupe.{Window, sweep, is_recent, seen}

sweep-IsDistinct : (w : Window) (now : ℕ) → IsDistinct w.seen_at → IsDistinct (sweep w now).seen_at
unfolding sweep
sweep-IsDistinct w now h = elim (Bool-cases (ltb (now - w.last_sweep) w.ttl)) [
  | inl soon ↦ rw soon h
  | inr late ↦ rw late (retain-IsDistinct _ w.seen_at h)
]

sweep-ttl : (w : Window) (now : ℕ) → (sweep w now).ttl ≡ w.ttl
unfolding sweep
sweep-ttl w now = elim (Bool-cases (ltb (now - w.last_sweep) w.ttl)) [
  | inl soon ↦ rw soon refl
  | inr late ↦ rw late refl
]

kept-is_recent :
    (ttl now key : ℕ) (o : Option ℕ)
    → is_recent ttl now (kept (λ k at. leb (now - at) ttl) key o) ≡ is_recent ttl now o
unfolding is_recent
kept-is_recent ttl now key none = refl
kept-is_recent ttl now key (some at) = elim (Bool-cases (leb (now - at) ttl)) [
  | inl young ↦ rw young (young)
  | inr old ↦ rw old refl
]

-- The sweep changes no answer.
is_recent-sweep :
    (w : Window) (now key : ℕ)
    → IsDistinct w.seen_at
    → is_recent w.ttl now (get key (sweep w now).seen_at) ≡ is_recent w.ttl now (get key w.seen_at)
unfolding sweep
is_recent-sweep w now key h = elim (Bool-cases (ltb (now - w.last_sweep) w.ttl)) [
  | inl soon ↦ rw soon refl
  | inr late ↦ rw late (
      rw (get-retain (λ k at. leb (now - at) w.ttl) key w.seen_at h)
        (kept-is_recent w.ttl now key (get key w.seen_at)))
]

module _ (hash : Bytes → ℕ) (w : Window) (payload : Bytes) (now : ℕ)
    (h : IsDistinct w.seen_at) where
  abbrev recorded : Window
  recorded =
      let swept = sweep w now in record swept { seen_at = insert (hash payload) now swept.seen_at }

  same_answer :
      is_recent (sweep w now).ttl now (get (hash payload) (sweep w now).seen_at)
      ≡ is_recent w.ttl now (get (hash payload) w.seen_at)
  same_answer = rw (sweep-ttl w now) (is_recent-sweep w now (hash payload) h)

  seen_copy :
      is_recent w.ttl now (get (hash payload) w.seen_at) ≡ true
      → seen hash w payload now ≡ (sweep w now, true)
  unfolding seen
  seen_copy e = rw (same_answer ∙ e) refl

  seen_first :
      is_recent w.ttl now (get (hash payload) w.seen_at) ≡ false
      → seen hash w payload now ≡ (recorded, false)
  unfolding seen
  seen_first e = rw (same_answer ∙ e) refl

  answer :
      ((seen hash w payload now).1 ≡ is_recent w.ttl now (get (hash payload) w.seen_at))
      × IsDistinct (seen hash w payload now).0.seen_at
  answer = elim (Bool-cases (is_recent w.ttl now (get (hash payload) w.seen_at))) [
    | inl e ↦ rw (seen_copy e, e) (refl, sweep-IsDistinct w now h)
    | inr e ↦
        rw (seen_first e, e)
          (
            refl,
            insert-IsDistinct (hash payload) now (sweep w now).seen_at (sweep-IsDistinct w now h),
          )
  ]

is_recent_iff :
    (ttl now : ℕ) (o : Option ℕ)
    → (is_recent ttl now o ≡ true) ↔ ((at : ℕ) × (o ≡ some at) × (now - at ≤ ttl))
unfolding is_recent
is_recent_iff ttl now none = (λ h. absurd (ground (arith, h)), λ t. absurd (none-ne-some t.1))
is_recent_iff ttl now (some at) = (
  λ h. (at, refl, ground (arith, h)),
  λ t. let same : at ≡ t.0 = some_inj t.1 in ground (arith, same, t.2),
)

kept_recent :
    (ttl now key : ℕ) (o : Option ℕ)
    → is_recent ttl now o ≡ true
    → kept (λ k at. leb (now - at) ttl) key o ≡ o
unfolding is_recent
kept_recent ttl now key none h = refl
kept_recent ttl now key (some at) h = rw h refl

-- A sweep leaves what is recent.
get-sweep :
    (w : Window) (now key : ℕ)
    → IsDistinct w.seen_at
    → is_recent w.ttl now (get key w.seen_at) ≡ true
    → get key (sweep w now).seen_at ≡ get key w.seen_at
unfolding sweep
get-sweep w now key h recent = elim (Bool-cases (ltb (now - w.last_sweep) w.ttl)) [
  | inl soon ↦ rw soon refl
  | inr late ↦ rw late (
      get-retain (λ k at. leb (now - at) w.ttl) key w.seen_at h
      ∙ kept_recent w.ttl now key (get key w.seen_at) recent)
]

-- From a window with one entry for each hash: a payload counts as seen exactly when the window has its hash at a time no
-- more than `ttl` ago, whether or not the sweep runs. After the call the window has the hash at the time that it
-- had, when the payload counts as seen, and otherwise at the time of the call; and still one entry for each
-- hash.
pub seen_iff :
    (hash : Bytes → ℕ) (w : Window) (payload : Bytes) (now : ℕ)
    → IsDistinct w.seen_at
    → (((seen hash w payload now).1 ≡ true)
        ↔ ((at : ℕ) × (get (hash payload) w.seen_at ≡ some at) × (now - at ≤ w.ttl)))
      × (get (hash payload) (seen hash w payload now).0.seen_at
          ≡ (if (seen hash w payload now).1 then get (hash payload) w.seen_at else some now))
      × IsDistinct (seen hash w payload now).0.seen_at
seen_iff hash w payload now h =
    let (says, distinct) = answer hash w payload now h in
    let before = get (hash payload) w.seen_at in
    (
      rw says (is_recent_iff w.ttl now before),
      elim (Bool-cases (is_recent w.ttl now before)) [
        | inl e ↦ rw (seen_copy hash w payload now h e) (get-sweep w now (hash payload) h e)
        | inr e ↦
            rw (seen_first hash w payload now h e)
              (get-insert_self (hash payload) now (sweep w now).seen_at)
      ],
      distinct,
    )

-- After a payload that did not count as seen, a next one with the same hash counts as seen exactly when
-- it comes no more than `ttl` later.
pub seen-again :
    (hash : Bytes → ℕ) (w : Window) (payload copy : Bytes) (now later : ℕ)
    → IsDistinct w.seen_at
    → hash copy ≡ hash payload
    → (seen hash w payload now).1 ≡ false
    → (seen hash (seen hash w payload now).0 copy later).1 ≡ leb (later - now) w.ttl
seen-again hash w payload copy now later h same first =
    let (says, distinct) = answer hash w payload now h in
    let out = seen_first hash w payload now h (sym says ∙ first) in
    let found : get (hash copy) (recorded hash w payload now h).seen_at ≡ some now =
      rw same (get-insert_self (hash payload) now (sweep w now).seen_at) in
    let (says', _) = answer hash (seen hash w payload now).0 copy later distinct in
    says' ∙ rw (out, found, sweep-ttl w now) (unfold is_recent in refl)
