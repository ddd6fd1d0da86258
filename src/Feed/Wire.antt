-- ===== src/Feed/Wire.antt =====
-- crates/feed/src/lib.rs: the messages of the stream and `flatten_static_report`. A `serde_json::Value` is a parameter with the methods that the program calls.
use openseafeed.Base.{
  ℕ, [], ◌∷◌, Bytes, codes, bytes_eq, Bool, if◌then◌else◌, Option, none, some, ◌>>=◌,
}
use openseafeed.Base.Map.{Map, get, insert, text_eq}

pub record MetaData (F : Type 0) : Type 0 where
  pub mmsi : ℕ
  pub mmsi_string : ℕ
  pub ship_name : Bytes
  pub ship_type : Option ℕ
  pub imo : Option ℕ
  pub latitude : F
  pub longitude : F
  pub time_utc : Bytes

pub record StreamMessage (F V : Type 0) : Type 0 where
  pub message : V
  pub message_type : Bytes
  pub metadata : MetaData F

pub record Json (F : Type 0) : Type 1 where
  pub Value : Type 0
  -- `get` with a text: the member of an object.
  pub get : Value → Bytes → Option Value
  pub as_f64 : Value → Option F
  pub as_u64 : Value → Option ℕ
  pub as_str : Value → Option Bytes
  pub as_bool : Value → Option Bool
  -- The members, in the order of the iterator; and `Value::Object`.
  pub as_object : Value → Option (Map Bytes Value)
  pub object : Map Bytes Value → Value

module _ {F : Type 0} (json : Json F) where
  open json use {Value}

  -- The loop over the members of a half.
  unfoldable pub merge_half : Map Bytes Value → Map Bytes Value → Map Bytes Value
  merge_half [] out = out
  merge_half ((k, v) ∷ half) out =
      merge_half half (if bytes_eq k (codes "Valid") then out else insert k v out)

  -- The members of a half that the vessel sent.
  unfoldable pub valid_half : Value → Bytes → Option (Map Bytes Value)
  valid_half packet half = do
    value ← json.get packet half
    members ← json.as_object value
    valid ← get (codes "Valid") members
    sent ← json.as_bool valid
    if sent then some members else none

  unfoldable pub flatten_static_report : Value → Option Value
  flatten_static_report packet = elim (valid_half packet (codes "ReportA")) [
    | none ↦ elim (valid_half packet (codes "ReportB")) [
      | none ↦ none
      | some b ↦ some (json.object (merge_half b []))
    ]
    | some a ↦ elim (valid_half packet (codes "ReportB")) [
      | none ↦ some (json.object (merge_half a []))
      | some b ↦ some (json.object (merge_half b (merge_half a [])))
    ]
  ]
