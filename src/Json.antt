-- ===== src/Json.antt =====
-- Documents as `json.Unmarshal` leaves them in an `any` (the `doc` of a response in
-- internal/kmp/response.go). A Go map has no order of its own: an object lists its entries in the
-- order in which one run of `range` visits them, and its keys are distinct.
pub mod Order
pub mod Within
use kmp_issuer.Base.{Bool, ℤ}
use kmp_issuer.Text.{Bytes}

-- A float64: one that equals its conversion to int64, or else the text that
-- `strconv.FormatFloat(f, 'f', -1, 64)` gives for it.
pub data Number : Type 0 where
  whole : ℤ → Number
  fraction : Bytes → Number

mutual
  pub data Json : Type 0 where
    null : Json
    boolean : Bool → Json
    num : Number → Json
    str : Bytes → Json
    arr : Items → Json
    obj : Fields → Json

  pub data Items : Type 0 where
    nil : Items
    cons : Json → Items → Items

  pub data Fields : Type 0 where
    end : Fields
    field : Bytes → Json → Fields → Fields
