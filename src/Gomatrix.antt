-- ===== src/Gomatrix.antt =====
-- The data of github.com/matrix-org/gomatrix that the program reads: events, responses and errors.
-- The requests themselves are parameters of the modules that make them.
use matrix_static.Prelude.{◌≡◌, refl, ◌⊎◌, inl, inr, Bool, Option, none, some, List, ◌>>=◌, ℤ, Text}
use matrix_static.Prelude.Maps.{Map, lookup}

-- `interface{}` as encoding/json fills it; a number is kept as its literal.
mutual
  pub data Json : Type 0 where
    null : Json
    boolean : Bool → Json
    number : Text → Json
    str : Text → Json
    arr : Items → Json
    obj : Fields → Json

  pub data Items : Type 0 where
    nil : Items
    cons : Json → Items → Items

  pub data Fields : Type 0 where
    end : Fields
    field : Text → Json → Fields → Fields

-- `Content` and `PrevContent`: a nil map reads like an empty one.
abbrev pub Content : Type 0
Content = Map Json

pub record Event : Type 0 where
  pub state_key : Option Text
  pub sender : Text
  pub type : Text
  pub timestamp : ℤ
  pub id : Text
  pub room_id : Text
  pub content : Content
  pub prev_content : Content

pub record RespMessages : Type 0 where
  pub start : Text
  pub chunk : List Event
  pub end_token : Text

pub record PublicRoomsChunk : Type 0 where
  pub canonical_alias : Text
  pub name : Text
  pub world_readable : Bool
  pub topic : Text
  pub num_joined_members : ℤ
  pub avatar_url : Text
  pub room_id : Text
  pub guest_can_join : Bool
  pub aliases : List Text

pub record RespError : Type 0 where
  pub err_code : Text
  pub err : Text

-- The values of `error` that the program tells apart; `no_error` is the nil in a `WrappedError`.
pub data GoError : Type 0 where
  no_error : GoError
  http_error : GoError → Text → ℤ → GoError
  resp_error : RespError → GoError
  other : Text → GoError

pub data Result {ℓ} (A : Type ℓ) : Type ℓ where
  ok : A → Result A
  err : GoError → Result A

pub Result-cases {ℓ} :
    {A : Type ℓ} (r : Result A) → ((e : GoError) × (r ≡ err e)) ⊎ ((a : A) × (r ≡ ok a))
Result-cases (ok a) = inr (a, refl)
Result-cases (err e) = inl (e, refl)

-- `content[key].(string)` with its `ok`
as_string : Json → Option Text
as_string (str s) = some s
as_string _ = none

unfoldable pub string_field : Content → Text → Option Text
unfolding as_string lookup
string_field content key = lookup key content >>= as_string
