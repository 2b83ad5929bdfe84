-- ===== src/Notification/Json.antt =====
-- JSON values, as `serde_json` represents them: a number is the text that it prints as, and an object
-- is the list of its entries.
use ara_notification_service.Common.{Bool, Str}

mutual
  pub data Value : Type 0 where
    null : Value
    boolean : Bool → Value
    number : Str → Value
    string : Str → Value
    array : Items → Value
    object : Fields → Value

  pub data Items : Type 0 where
    nil : Items
    cons : Value → Items → Items

  pub data Fields : Type 0 where
    end : Fields
    field : Str → Value → Fields → Fields
