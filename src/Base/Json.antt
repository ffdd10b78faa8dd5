-- ===== src/Base/Json.antt =====
-- Values of JSON as Python's dicts, lists, texts and numbers.
use Prim.Native.Nat.{ℕ}
use mathlib.Core.Bool.{Bool, true, false, not}
use mathlib.Core.Option.{Option, none, some}
use factpulse_billing_app_pu.Base.Tests.{◌==◌, if◌then◌else◌}
use factpulse_billing_app_pu.Base.Text.{Text, truthy, ◌=ᵗ◌}

mutual
  pub data Json : Type 0 where
    null : Json
    boolean : Bool → Json
    number : ℕ → Json
    string : Text → Json
    array : Items → Json
    dict : Fields → Json

  pub data Items : Type 0 where
    item_end : Items
    item : Json → Items → Items

  pub data Fields : Type 0 where
    field_end : Fields
    field : Text → Json → Fields → Fields

-- `bool(value)`
abbrev pub is_truthy : Json → Bool
is_truthy null = false
is_truthy (boolean b) = b
is_truthy (number n) = not (n == 0)
is_truthy (string s) = truthy s
is_truthy (array item_end) = false
is_truthy (array (item _ _)) = true
is_truthy (dict field_end) = false
is_truthy (dict (field _ _ _)) = true

-- the value of a key of a dict; a key stands once
unfoldable pub lookup : Text → Fields → Option Json
unfolding ◌=ᵗ◌
lookup key field_end = none
lookup key (field k v rest) = let later = lookup key rest in if k =ᵗ key then some v else later
