-- ===== src/Fanout/Session.antt =====
-- services/fanout/src/main.rs: `apply_subscription` and `client_session`, event by event. Each send of the
-- socket has its outcome with it; the readers of JSON and of `f64`, the validator and the bus are parameters.
pub mod Counts
use openseafeed.Base.{
  ℕ, suc, ◌+◌, List, [], ◌∷◌, ◌++◌, length, map, Bytes, codes, Bool, true, false, not,
  if◌then◌else◌, Option, none, some, ◌≡◌, refl, ap, sym, ◌∙◌, arith, All, All-append,
  All-append_right, Bool-cases, inl, inr,
}
use openseafeed.Base.Map.{Map}
use openseafeed.Base.Result.{Result, ok, err, ◌>>=◌ as ◌>>=ᵣ◌}
use openseafeed.Ais.Float.{Floats}
use openseafeed.Keys.{KeyInfo}
use openseafeed.Feed.{decoded_pattern}
use openseafeed.Fanout.{
  Subscription, ClientFilter, from_subscription, filter_cover, matches, tier_of, is_too_large,
}
use openseafeed.Fanout.Seed.{SeedVessel, matches_seed, unwrap_or}

pub data Outcome : Type 0 where
  delivered : Outcome
  closed : Outcome
  timed_out : Outcome

-- What the services around a session answer.
pub record Services (F : Type 0) : Type 0 where
  pub from_str : Bytes → Result Bytes (Subscription F)
  pub validate : Bytes → Option KeyInfo
  -- The error of a subscription to a pattern.
  pub subscribe : Bytes → Option Bytes
  pub parse_f64 : Bytes → Option F

pub record Session (F : Type 0) : Type 0 where
  pub filter : ClientFilter F
  pub patterns : List Bytes
  pub sent : ℕ
  pub dropped : ℕ

pub data Event (F : Type 0) : Type 0 where
  -- A message of the bus: its headers, its body and what becomes of the send.
  bus : Map Bytes Bytes → Bytes → Outcome → Event F
  bus_end : Event F
  -- A text of the client, with the fleet of the moment and what becomes of each send of it.
  text : Bytes → List (SeedVessel F × Outcome) → Event F
  close : Event F
  other : Event F
  socket_error : Event F

pub data Status (F : Type 0) : Type 0 where
  running : Session F → Status F
  finished : Session F → Status F
  failed : Bytes → Status F

module _ (fl : Floats) (services : Services fl.F) where
  open fl use {F}

  unfoldable pub subscribe_all : List Bytes → Result Bytes (List Bytes)
  subscribe_all [] = ok []
  subscribe_all (pattern ∷ patterns) = elim (services.subscribe pattern) [
    | some e ↦ err (codes "subscribe failed: " ++ e)
    | none ↦ subscribe_all patterns >>=ᵣ (λ subs. ok (pattern ∷ subs))
  ]

  unfoldable pub subscription_of : Bytes → Result Bytes (Subscription F)
  subscription_of t = elim (services.from_str t) [
    | ok sub ↦ ok sub
    | err e ↦ err (codes "invalid subscription JSON: " ++ e)
  ]

  abbrev pub too_large : Bytes
  too_large =
      codes
        "free tier is limited to 30000 square degrees of bounding-box area; contribute a receiver or feed to unlock unlimited streaming"

  unfoldable pub apply_subscription :
      Bool → Bytes → Result Bytes (ClientFilter F × List Bytes × Bool)
  apply_subscription first_party t = subscription_of t >>=ᵣ (λ sub.
      tier_of fl (services.validate sub.api_key) first_party sub >>=ᵣ (λ tier.
        from_subscription fl sub >>=ᵣ (λ filter.
          if is_too_large fl tier filter
          then err too_large
          else subscribe_all (map decoded_pattern (filter_cover fl filter))
            >>=ᵣ (λ subs. ok (filter, subs, unwrap_or sub.initial_state true)))))

  -- A send of the initial state, with what follows one that was delivered.
  unfoldable pub send_next :
      Bytes → Outcome → List Bytes × Result Bytes ℕ → List Bytes × Result Bytes ℕ
  send_next frame delivered rest = (frame ∷ rest.0, rest.1 >>=ᵣ (λ n. ok (n + 1)))
  send_next frame closed rest = ([], err (codes "socket closed during initial state"))
  send_next frame timed_out rest = ([], err (codes "client could not drain the initial state"))

  -- The frames that go out, and their number unless the socket fails.
  unfoldable pub send_initial_state :
      ClientFilter F → List (SeedVessel F × Outcome) → List Bytes × Result Bytes ℕ
  send_initial_state filter [] = ([], ok 0)
  send_initial_state filter ((vessel, outcome) ∷ fleet) =
      let rest = send_initial_state filter fleet in
      if matches_seed fl filter vessel then send_next vessel.frame outcome rest else rest

  unfoldable pub seeded : Session F → List Bytes × Result Bytes ℕ → List Bytes × Status F
  seeded s (frames, ok n) = (frames, running (record s { sent = s.sent + n }))
  seeded s (frames, err reason) = (frames, failed reason)

  unfoldable pub seed_session :
      Session F → Bool → List (SeedVessel F × Outcome) → List Bytes × Status F
  seed_session s false fleet = ([], running s)
  seed_session s true fleet = seeded s (send_initial_state s.filter fleet)

  unfoldable pub forward : Session F → Bytes → Outcome → List Bytes × Status F
  forward s body delivered = (body ∷ [], running (record s { sent = s.sent + 1 }))
  forward s body closed = ([], finished s)
  forward s body timed_out = ([], finished (record s { dropped = s.dropped + 1 }))

  -- A subscription in the place of the old one; an error is sent to the client, and is no frame.
  unfoldable pub resubscribe :
      Session F
      → Result Bytes (ClientFilter F × List Bytes × Bool)
      → List (SeedVessel F × Outcome)
      → List Bytes × Status F
  resubscribe s (err e) fleet = ([], running s)
  resubscribe s (ok (filter, subs, seed_again)) fleet =
      seed_session (record s { filter = filter; patterns = subs }) seed_again fleet

  -- A round of the loop: the frames that the client gets, and what the session is then.
  unfoldable pub session_step : Bool → Session F → Event F → List Bytes × Status F
  session_step first_party s (bus hdrs body outcome) =
      if matches fl services.parse_f64 s.filter hdrs
      then forward s body outcome
      else ([], running s)
  session_step first_party s bus_end = ([], finished s)
  session_step first_party s (text t fleet) = resubscribe s (apply_subscription first_party t) fleet
  session_step first_party s close = ([], finished s)
  session_step first_party s other = ([], running s)
  session_step first_party s socket_error = ([], finished s)

  -- The rest of a session that goes on.
  unfoldable pub go_on :
      List Bytes × Status F → (Session F → List Bytes × Status F) → List Bytes × Status F
  go_on (frames, running s) rest = (frames ++ (rest s).0, (rest s).1)
  go_on (frames, finished s) rest = (frames, finished s)
  go_on (frames, failed reason) rest = (frames, failed reason)

  unfoldable pub session_loop : Bool → List (Event F) → Session F → List Bytes × Status F
  session_loop first_party [] s = ([], running s)
  session_loop first_party (e ∷ events) s =
      go_on (session_step first_party s e) (session_loop first_party events)

  unfoldable pub start_session :
      Result Bytes (ClientFilter F × List Bytes × Bool)
      → List (SeedVessel F × Outcome)
      → List Bytes × Status F
  start_session (err e) fleet = ([], failed (codes "subscription rejected"))
  start_session (ok (filter, subs, want_seed)) fleet =
      let start : Session F = record { filter = filter; patterns = subs; sent = 0; dropped = 0 } in
      seed_session start want_seed fleet

  -- `client_session` from its first text on.
  unfoldable pub client_session :
      Bool → Bytes → List (SeedVessel F × Outcome) → List (Event F) → List Bytes × Status F
  client_session first_party t fleet events =
      go_on (start_session (apply_subscription first_party t) fleet)
        (session_loop first_party events)
