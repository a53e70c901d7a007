-- ===== src/Json.antt =====
-- What encoding/json decodes into `interface{}`: the values that the handlers and the proxy walk.
-- A Go map is a list of its entries, in the order in which a loop over it meets them.
pub mod Maps
use vaulty.Prelude.{Text, Option, none, some, Bool, if◌then◌else◌, text_eq}

mutual
  pub data Json : Type 0 where
    null : Json
    bool : Bool → Json
    -- A number is kept as it is written.
    num : Text → Json
    str : Text → Json
    arr : Items → Json
    obj : Fields → Json

  pub data Items : Type 0 where
    nil : Items
    cons : Json → Items → Items

  pub data Fields : Type 0 where
    end : Fields
    field : Text → Json → Fields → Fields

-- `v, ok := body[key]`
unfoldable pub lookup : Text → Fields → Option Json
lookup key end = none
lookup key (field k v fs) = if text_eq k key then some v else lookup key fs

-- `body[key] = v` at a key that the map has; another key is added at the end.
unfoldable pub put : Text → Json → Fields → Fields
put key v end = field key v end
put key v (field k w fs) = if text_eq k key then field k v fs else field k w (put key v fs)
