-- ===== src/Keys.antt =====
-- crates/keys/src/lib.rs: `kind_of` and the validator. What the control plane answers is an argument, and
-- so are the times at which the cache is read and written.
pub mod Cache
use openseafeed.Base.{
  ℕ, zero, suc, ◌-◌, [], ◌∷◌, ◌++◌, length, drop, all, Bytes, codes, bytes_eq, Bool, ◌==◌, ◌&&◌,
  leb, ltb, if◌then◌else◌, Option, none, some, ◌>>=◌,
}
use openseafeed.Base.Map.{Map, get, insert, text_eq}
use openseafeed.Feed.{is_ascii_alphanumeric}

pub data Kind : Type 0 where
  live : Kind
  station : Kind
  feed : Kind

unfoldable pub as_str : Kind → Bytes
as_str live = codes "live"
as_str station = codes "station"
as_str feed = codes "feed"

unfoldable pub strip_prefix : Bytes → Bytes → Option Bytes
strip_prefix [] s = some s
strip_prefix (p ∷ ps) [] = none
strip_prefix (p ∷ ps) (c ∷ s) = if p == c then strip_prefix ps s else none

abbrev or_else : {A : Type 0} → Option A → Option A → Option A
or_else none other = other
or_else (some a) other = some a

abbrev with_kind : Kind → Option Bytes → Option (Kind × Bytes)
with_kind kind none = none
with_kind kind (some rest) = some (kind, rest)

unfoldable pub split_kind : Bytes → Option (Kind × Bytes)
split_kind key = or_else (with_kind live (strip_prefix (codes "osf_live_") key)) (
    or_else (with_kind station (strip_prefix (codes "osf_stn_") key))
      (with_kind feed (strip_prefix (codes "osf_feed_") key)))

unfoldable pub kind_of : Bytes → Option Kind
kind_of key = do
  (kind, rest) ← split_kind key
  if leb 8 (length rest) && all is_ascii_alphanumeric rest then some kind else none

pub record KeyInfo : Type 0 where
  pub kind : Kind
  pub tier : Bytes
  pub owner_id : Bytes
  pub station_id : Option Bytes

pub record ValidateResponse : Type 0 where
  pub valid : Bool
  pub kind : Bytes
  pub tier : Bytes
  pub owner_id : Bytes
  pub station_id : Option Bytes

pub data Mode : Type 0 where
  dev : Mode
  http : Map Bytes (Option KeyInfo × ℕ) → Mode

pub record Validator : Type 0 where
  pub mode : Mode
  pub cache_ttl : ℕ

-- The kind that the control plane names, or else the key's own.
unfoldable pub response_kind : Bytes → Bytes → Option Kind
response_kind key name =
    if bytes_eq name (codes "live")
    then some live
    else if bytes_eq name (codes "station")
    then some station
    else if bytes_eq name (codes "feed")
    then some feed
    else kind_of key

unfoldable pub accepted : Bytes → ValidateResponse → Option KeyInfo
accepted key v = do
  kind ← response_kind key v.kind
  some (record {
    kind = kind;
    tier = if length v.tier == 0 then codes "free" else v.tier;
    owner_id = v.owner_id;
    station_id = v.station_id;
  })

-- `fetch`, when the request and its body give `answer`; `none` stands for an error of either.
unfoldable pub fetch : Option ValidateResponse → Bytes → Option KeyInfo
fetch answer key = do v ← answer; if v.valid then accepted key v else none

unfoldable pub dev_info : Kind → Bytes → KeyInfo
dev_info kind key = record {
  kind = kind;
  tier = codes "contributor";
  owner_id = codes "dev";
  station_id = some (codes "dev-" ++ drop (length key - 8) key);
}

-- The answer of the cache, when it is young enough.
unfoldable pub cached : (ttl now : ℕ) → Option (Option KeyInfo × ℕ) → Option (Option KeyInfo)
cached ttl now none = none
cached ttl now (some (info, at)) = if ltb (now - at) ttl then some info else none

-- `validate` on a well-formed key, against the control plane: `now` is the time of the read, `later`
-- that of the write.
unfoldable pub ask :
    Option ValidateResponse
    → (now later : ℕ) → Validator
    → Map Bytes (Option KeyInfo × ℕ)
    → Bytes
    → Validator × Option KeyInfo
ask answer now later v cache key = elim (cached v.cache_ttl now (get key cache)) [
  | some info ↦ (v, info)
  | none ↦
      let info = fetch answer key in
      (record v { mode = http (insert key (info, later) cache) }, info)
]

unfoldable pub validate :
    Option ValidateResponse → (now later : ℕ) → Validator → Bytes → Validator × Option KeyInfo
validate answer now later v key = elim (kind_of key) [
  | none ↦ (v, none)
  | some kind ↦ elim v.mode [
    | dev ↦ (v, some (dev_info kind key))
    | http cache ↦ ask answer now later v cache key
  ]
]
