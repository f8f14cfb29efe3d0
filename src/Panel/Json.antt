-- ===== src/Panel/Json.antt =====
-- Panel responses. A decoded JSON tree (encoding/json) is a `Value`; the accessors of
-- github.com/bitly/go-simplejson, through which the client reads a response, are the fields of an
-- interface that the client's definitions take.
use xray_r4u.Base.{Bool, Option, List, [], ◌∷◌, Bytes, ℤ}

mutual
  pub data Value : Type 0 where
    null : Value
    boolean : Bool → Value
    -- A json.Number: its Int64, if it has one, and its Float64 cut to an int64.
    number : Option ℤ → ℤ → Value
    text : Bytes → Value
    array : Items → Value
    object : Fields → Value

  pub data Items : Type 0 where
    nil : Items
    cons : Value → Items → Items

  pub data Fields : Type 0 where
    done : Fields
    field : Bytes → Value → Fields → Fields

abbrev pub to_list : Items → List Value
to_list nil = []
to_list (cons v vs) = v ∷ to_list vs

pub record SimpleJson : Type 1 where
  pub Json : Type 0
  pub get : Json → Bytes → Json
  pub check_get : Json → Bytes → Option Json
  -- `NewJson`; `none` is its error.
  pub new_json : Bytes → Option Json
  -- `Interface()`, and the element list of `Array()`, which fails on anything else.
  pub value : Json → Value
  pub get_array : Json → Option (List Json)
  pub must_int : Json → ℤ
  pub get_int64 : Json → Option ℤ
  pub must_string : Json → Bytes
  pub must_bool : Json → Bool
  pub must_string_array : Json → List Bytes

-- `j.MustArray()`, with `j.GetIndex(i)` for each of its indices: no element where it is no array.
abbrev pub or_empty : {A : Type 0} → Option (List A) → List A
or_empty Option.none = []
or_empty (Option.some xs) = xs
