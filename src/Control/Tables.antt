-- ===== src/Control/Tables.antt =====
-- services/control/src/db.rs: the tables, and what SQLite does with the statements of the program. A time is a
-- number: the texts of RFC 3339 that the program writes all bear the offset `+00:00`, and their order is that
-- of the times. A statement fails on a constraint only; a row that has NULL in a column equals no other there.
pub mod Rows
use openseafeed.Base.{
  ℕ, suc, ◌+◌, List, [], ◌∷◌, ◌++◌, Bytes, bytes_eq, Bool, true, false, leb, if◌then◌else◌, Option,
  none, some,
}
use openseafeed.Base.Int.{ℤ}
use openseafeed.Base.Map.{Map}

pub record User : Type 0 where
  pub id : Bytes
  pub email : Option Bytes
  pub github_id : Option Bytes
  pub google_id : Option Bytes
  pub display_name : Option Bytes
  pub created_at : ℕ
  pub role : Bytes
  pub tier_override : Option Bytes

pub record ApiKey : Type 0 where
  pub key : Bytes
  pub user_id : Bytes
  pub kind : Bytes
  pub label : Option Bytes
  pub created_at : ℕ
  pub revoked_at : Option ℕ
  pub last_used_at : Option ℕ

pub record Station (F : Type 0) : Type 0 where
  pub id : Bytes
  pub user_id : Bytes
  pub name : Bytes
  pub lat : Option F
  pub lon : Option F
  pub key : Bytes
  pub created_at : ℕ
  pub last_seen_at : Option ℕ
  pub msgs_total : ℤ

pub record MagicToken : Type 0 where
  pub token : Bytes
  pub email : Bytes
  pub expires_at : ℕ
  pub used_at : Option ℕ

pub record VesselPhoto : Type 0 where
  pub imo : Option ℕ
  pub image_url : Option Bytes
  pub page_url : Option Bytes
  pub fetched_at : ℕ

-- The database, with `vessel_photos_v2` by its primary key.
pub record Db (F : Type 0) : Type 0 where
  pub users : List User
  pub api_keys : List ApiKey
  pub stations : List (Station F)
  pub magic_tokens : List MagicToken
  pub photos : Map ℕ VesselPhoto

-- `col = ?`, and what a UNIQUE column forbids.
abbrev pub is_text : Option Bytes → Bytes → Bool
is_text none text = false
is_text (some value) text = bytes_eq value text

abbrev pub clashes : Option Bytes → Option Bytes → Bool
clashes column none = false
clashes column (some text) = is_text column text

module _ {A : Type 0} where
  -- `SELECT … WHERE …`, the first row of it.
  unfoldable pub find : (A → Bool) → List A → Option A
  find p [] = none
  find p (row ∷ rows) = if p row then some row else find p rows

  -- `UPDATE … SET … WHERE …`
  unfoldable pub update_where : (A → Bool) → (A → A) → List A → List A
  update_where p f [] = []
  update_where p f (row ∷ rows) = (if p row then f row else row) ∷ update_where p f rows

  -- `SELECT COUNT(*) … WHERE …`, and the number of rows of an update.
  unfoldable pub count : (A → Bool) → List A → ℕ
  count p [] = 0
  count p (row ∷ rows) = if p row then suc (count p rows) else count p rows

  -- `ORDER BY` a time.
  unfoldable pub insert_by : (A → ℕ) → A → List A → List A
  insert_by time row [] = row ∷ []
  insert_by time row (first ∷ rows) =
      if leb (time row) (time first) then row ∷ first ∷ rows else first ∷ insert_by time row rows

  unfoldable pub order_by : (A → ℕ) → List A → List A
  order_by time [] = []
  order_by time (row ∷ rows) = insert_by time row (order_by time rows)
