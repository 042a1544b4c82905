-- ===== src/Sdk/Json.antt =====
-- packages/buyerSdkTs/src/jcsCanonicalizer.ts on JSON values: plain objects, arrays, strings,
-- numbers, true, false and null. An object is its own entries in the order of `Object.entries`; its
-- keys are no array indices, which JavaScript would move to the front. `Set`, `Map` and `undefined`
-- stand in no mandate and are left out. `JSON.stringify` is the language's: it escapes quotes,
-- backslashes and control characters; a text holds no lone surrogate, and
-- an integer is below 10^21.
pub mod Order
pub mod Canonical
use razoragent_mesh.Prelude.{
  ℕ, suc, ◌+◌, ◌-◌, ◌/◌, ◌%◌, List, [], ◌∷◌, ◌++◌, Bool, true, false, ltb, leb, ◌==◌, if◌then◌else◌,
  Fallible, fine, thrown, ◌>>=◌, ◌>>◌,
}
use razoragent_mesh.Prelude.Int.{ℤ, pos, negsuc}
use razoragent_mesh.Prelude.Text.{Text, codes}
use razoragent_mesh.Prelude.Decimal.{decimal}

mutual
  pub data Json : Type 0 where
    null : Json
    boolean : Bool → Json
    integer : ℤ → Json
    fraction : Text → Json
    string : Text → Json
    array : Items → Json
    object : Fields → Json

  pub data Items : Type 0 where
    no_items : Items
    item : Json → Items → Items

  pub data Fields : Type 0 where
    no_fields : Fields
    field : Text → Json → Fields → Fields

-- The number that `_verifyNoFloats` refuses.
pub data JsonDrift : Type 0 where
  float_detected : Text → JsonDrift

unfoldable mutual
  pub verify_no_floats : Json → Fallible JsonDrift (Unit {0})
  verify_no_floats null = fine tt
  verify_no_floats (boolean b) = fine tt
  verify_no_floats (integer n) = fine tt
  verify_no_floats (fraction shown) = thrown (float_detected shown)
  verify_no_floats (string s) = fine tt
  verify_no_floats (array vs) = verify_no_floats_items vs
  verify_no_floats (object fs) = verify_no_floats_fields fs

  pub verify_no_floats_items : Items → Fallible JsonDrift (Unit {0})
  verify_no_floats_items no_items = fine tt
  verify_no_floats_items (item v vs) = verify_no_floats v >> verify_no_floats_items vs

  pub verify_no_floats_fields : Fields → Fallible JsonDrift (Unit {0})
  verify_no_floats_fields no_fields = fine tt
  verify_no_floats_fields (field k v fs) = verify_no_floats v >> verify_no_floats_fields fs

-- `a < b` on strings, by code units.
unfoldable pub text_less : Text → Text → Bool
text_less [] [] = false
text_less [] (d ∷ t) = true
text_less (c ∷ s) [] = false
text_less (c ∷ s) (d ∷ t) = let rest = text_less s t in if c == d then rest else ltb c d

-- A stable sort by key: an entry goes in front of the first one whose key is not below its own.
unfoldable pub insert_field : Text → Json → Fields → Fields
insert_field k v no_fields = field k v no_fields
insert_field k v (field j w fs) =
    let rest = insert_field k v fs in
    if text_less j k then field j w rest else field k v (field j w fs)

unfoldable mutual
  pub normalize_for_jcs : Json → Json
  normalize_for_jcs null = null
  normalize_for_jcs (boolean b) = boolean b
  normalize_for_jcs (integer n) = integer n
  normalize_for_jcs (fraction shown) = fraction shown
  normalize_for_jcs (string s) = string s
  normalize_for_jcs (array vs) = array (normalize_items vs)
  normalize_for_jcs (object fs) = object (normalize_fields fs)

  pub normalize_items : Items → Items
  normalize_items no_items = no_items
  normalize_items (item v vs) = item (normalize_for_jcs v) (normalize_items vs)

  pub normalize_fields : Fields → Fields
  normalize_fields no_fields = no_fields
  normalize_fields (field k v fs) = insert_field k (normalize_for_jcs v) (normalize_fields fs)

hex_digit : ℕ → ℕ
hex_digit d = if ltb d 10 then 48 + d else 87 + d

-- One code unit inside the quotes.
unfoldable pub escape : ℕ → Text
unfolding hex_digit
escape c =
    if c == 34
    then codes "\\\""
    else if c == 92
    then codes "\\\\"
    else if c == 8
    then codes "\\b"
    else if c == 9
    then codes "\\t"
    else if c == 10
    then codes "\\n"
    else if c == 12
    then codes "\\f"
    else if c == 13
    then codes "\\r"
    else if ltb c 32
    then codes "\\u00" ++ hex_digit (c / 16) ∷ hex_digit (c % 16) ∷ []
    else c ∷ []

unfoldable pub escaped : Text → Text
escaped [] = []
escaped (c ∷ s) = escape c ++ escaped s

unfoldable pub quote : Text → Text
unfolding escaped
quote s = b'"' ∷ (escaped s ++ b'"' ∷ [])

unfoldable pub print_integer : ℤ → Text
print_integer (pos n) = decimal n
print_integer (negsuc n) = b'-' ∷ decimal (suc n)

-- `JSON.stringify`
unfoldable mutual
  pub stringify : Json → Text
  stringify null = codes "null"
  stringify (boolean true) = codes "true"
  stringify (boolean false) = codes "false"
  stringify (integer n) = print_integer n
  stringify (fraction shown) = shown
  stringify (string s) = quote s
  stringify (array vs) = b'[' ∷ (stringify_items vs ++ b']' ∷ [])
  stringify (object fs) = b'{' ∷ (stringify_fields fs ++ b'}' ∷ [])

  pub stringify_items : Items → Text
  stringify_items no_items = []
  stringify_items (item v no_items) = stringify v
  stringify_items (item v (item w vs)) = stringify v ++ b',' ∷ stringify_items (item w vs)

  pub stringify_fields : Fields → Text
  stringify_fields no_fields = []
  stringify_fields (field k v no_fields) = quote k ++ b':' ∷ stringify v
  stringify_fields (field k v (field j w fs)) =
      quote k ++ b':' ∷ (stringify v ++ b',' ∷ stringify_fields (field j w fs))

unfoldable pub canonicalize_json_string : Json → Fallible JsonDrift Text
canonicalize_json_string payload = do
  verify_no_floats payload
  fine (stringify (normalize_for_jcs payload))
