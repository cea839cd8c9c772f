-- ===== src/Prelude/Json.antt =====
-- JSON values, as `JSON.parse` gives them. An object is its entries in order.
use mqttctl.Prelude.Int.{ℤ}
use mqttctl.Prelude.Strings.{Text}
use mathlib.Core.Bool.{Bool}

mutual
  pub data Json : Type 0 where
    null : Json
    boolean : Bool → Json
    number : ℤ → Json
    string : Text → Json
    array : Items → Json
    object : Entries → Json

  pub data Items : Type 0 where
    nil : Items
    item : Json → Items → Items

  pub data Entries : Type 0 where
    end : Entries
    entry : Text → Json → Entries → Entries
