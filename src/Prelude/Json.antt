-- ===== src/Prelude/Json.antt =====
-- A Json::Value of jsoncpp, as far as the gateway builds and reads one. An object is its members, in
-- the order in which they were first set; the order in which jsoncpp writes them is its own.
use mathlib.Core.Path.{◌≡◌, refl}
use mathlib.Core.Bool.{Bool}
use mathlib.Core.Option.{Option, none, some}
use native.Mathlib.Omega.{arith}
use telegram_rest_gateway.Prelude.Tests.{if◌then◌else◌}
use telegram_rest_gateway.Prelude.Equality.{Bytes, ◌==◌, bytes_eq, bytes_beq_iff}
use telegram_rest_gateway.Prelude.Int.{ℤ}

mutual
  pub data Json : Type 0 where
    null : Json
    boolean : Bool → Json
    int : ℤ → Json
    string : Bytes → Json
    array : Items → Json
    object : Fields → Json

  pub data Items : Type 0 where
    nil : Items
    item : Json → Items → Items

  pub data Fields : Type 0 where
    end : Fields
    field : Bytes → Json → Fields → Fields

unfoldable pub find_field : Bytes → Fields → Option Json
find_field key end = none
find_field key (field k v fs) = let rest = find_field key fs in if k == key then some v else rest

unfoldable pub put_field : Bytes → Json → Fields → Fields
put_field key v end = field key v end
put_field key v (field k w fs) =
    let rest = put_field key v fs in if k == key then field key v fs else field k w rest

-- json[key] = v, on an object or on null.
unfoldable pub put : Bytes → Json → Json → Json
unfolding put_field
put key v (object fs) = object (put_field key v fs)
put key v j = object (field key v end)

-- `json ▷ put key v`: the statements that build a value, one after the other.
infixl 20 ◌▷◌
abbrev pub ◌▷◌ : Json → (Json → Json) → Json
j ▷ f = f j

-- json[key] of an object, if it is there.
unfoldable pub member : Bytes → Json → Option Json
unfolding find_field
member key (object fs) = find_field key fs
member key j = none

pub find_field-put_field :
    (k key : Bytes) (v : Json) (fs : Fields)
    → find_field k (put_field key v fs) ≡ (if key == k then some v else find_field k fs)
unfolding find_field put_field
find_field-put_field k key v end = refl
find_field-put_field k key v (field j w fs) = ground (
  arith,
  bytes_beq_iff key k,
  bytes_beq_iff j key,
  bytes_beq_iff j k,
  find_field-put_field k key v fs,
)

pub member-put :
    (k key : Bytes) (v j : Json)
    → member k (put key v j) ≡ (if key == k then some v else member k j)
unfolding member put find_field put_field
member-put k key v null = refl
member-put k key v (boolean b) = refl
member-put k key v (int n) = refl
member-put k key v (string s) = refl
member-put k key v (array xs) = refl
member-put k key v (object fs) = find_field-put_field k key v fs

-- A value that is put where an object is there.
abbrev pub put_some : {A : Type 0} → Bytes → (A → Json) → Option A → Json → Json
put_some k to_json none json = json
put_some k to_json (some x) json = put k (to_json x) json

abbrev pub or_else : Option Json → Option Json → Option Json
or_else none o = o
or_else (some v) o = some v

pub or_else-none : (o : Option Json) → or_else o none ≡ o
or_else-none none = refl
or_else-none (some v) = refl

abbrev pub json_of : {A : Type 0} → (A → Json) → Option A → Option Json
json_of to_json none = none
json_of to_json (some x) = some (to_json x)

pub member-put_some :
    {A : Type 0} (k key : Bytes) (to_json : A → Json) (o : Option A) (j : Json)
    → member k (put_some key to_json o j)
      ≡ (if key == k then or_else (json_of to_json o) (member k j) else member k j)
member-put_some k key to_json none j = ground arith
member-put_some k key to_json (some x) j = member-put k key (to_json x) j
