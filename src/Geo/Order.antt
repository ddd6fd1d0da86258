-- ===== src/Geo/Order.antt =====
-- What the proofs on cells assume of `f64`: its order on the degrees of the globe, where an IEEE double is
-- never NaN and the middle of two of them does not overflow.
use openseafeed.Base.{◌≡◌, true, false}
use openseafeed.Base.Int.{pos, negsuc}
use openseafeed.Ais.Float.{Floats}
use openseafeed.Geo.{mid}

module _ (fl : Floats) where
  open fl use {F, of_int, leb}

  abbrev pub IsLe : F → F → Type 0
  IsLe x y = leb x y ≡ true

  -- A number from -180 to 180.
  abbrev pub IsDegree : F → Type 0
  IsDegree x = IsLe (of_int (negsuc 179)) x × IsLe x (of_int (pos 180))

  pub record IsOrdered : Type 0 where
    pub trans : {x y z : F} → IsLe x y → IsLe y z → IsLe x z
    pub total : {x y : F} → IsDegree x → IsDegree y → leb x y ≡ false → IsLe y x
    pub mid-IsDegree : {x y : F} → IsDegree x → IsDegree y → IsDegree (mid fl x y)
    pub least : IsDegree (of_int (negsuc 179))
    pub south : IsDegree (of_int (negsuc 89))
    pub north : IsDegree (of_int (pos 90))
    pub most : IsDegree (of_int (pos 180))
