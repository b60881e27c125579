-- ===== src/Json.antt =====
-- What encoding/json decodes into `any`: the payloads exchanged with a gateway, and metadata.
-- A number is kept as its text. A nil `map[string]any` is `none`.
use payment_module.Common.{String, Bool, Option, none, some, str_eq, if◌then◌else◌}

mutual
  pub data Json : Type 0 where
    null : Json
    boolean : Bool → Json
    number : String → Json
    text : String → Json
    array : Items → Json
    object : Members → Json

  pub data Items : Type 0 where
    nil : Items
    item : Json → Items → Items

  pub data Members : Type 0 where
    end : Members
    member : String → Json → Members → Members

-- map[string]any
abbrev pub Payload : Type 0
Payload = Option Members

unfoldable pub lookup : String → Members → Option Json
lookup k end = none
lookup k (member j v ms) = if str_eq j k then some v else lookup k ms

-- m[k] of a map[string]any, which may be nil.
unfoldable pub field : String → Payload → Option Json
unfolding lookup
field k none = none
field k (some ms) = lookup k ms

-- s, _ := v.(string)
abbrev pub text_of : Option Json → String
text_of (some (text s)) = s
text_of _ = ""

unfoldable pub text_field : String → Payload → String
unfolding field
text_field k p = text_of (field k p)
