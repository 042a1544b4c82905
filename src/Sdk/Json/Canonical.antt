-- ===== src/Sdk/Json/Canonical.antt =====
-- The canonical text does not depend on the order of an object's entries.
use razoragent_mesh.Prelude.{◌≡◌, ◌≢◌, refl, ap, ◌∙◌, fine, ◌>>◌, >>-eq-fine}
use razoragent_mesh.Prelude.Text.{Text}
use razoragent_mesh.Sdk.Json.{
  Json, array, object, Items, no_items, item, Fields, no_fields, field, verify_no_floats,
  verify_no_floats_items, verify_no_floats_fields, normalize_for_jcs, normalize_items,
  normalize_fields, stringify, canonicalize_json_string,
}
use razoragent_mesh.Sdk.Json.Order.{insert_field-swap}

-- The same value with the entries of its objects, at any depth, in another order.
mutual
  pub data SameJson : Json → Json → Type 0 where
    same : {a b : Json} → a ≡ b → SameJson a b
    same_array : {vs ws : Items} → SameItems vs ws → SameJson (array vs) (array ws)
    same_object : {fs gs : Fields} → SameFields fs gs → SameJson (object fs) (object gs)

  pub data SameItems : Items → Items → Type 0 where
    same_end : SameItems no_items no_items
    same_item :
        {v w : Json} {vs ws : Items}
        → SameJson v w
        → SameItems vs ws
        → SameItems (item v vs) (item w ws)

  pub data SameFields : Fields → Fields → Type 0 where
    same_none : SameFields no_fields no_fields
    same_field :
        {k : Text} {v w : Json} {fs gs : Fields}
        → SameJson v w
        → SameFields fs gs
        → SameFields (field k v fs) (field k w gs)
    swapped :
        {k j : Text} {v w : Json} {fs gs : Fields}
        → k ≢ j
        → SameFields fs gs
        → SameFields (field k v (field j w fs)) (field j w (field k v gs))
    joined : {fs gs hs : Fields} → SameFields fs gs → SameFields gs hs → SameFields fs hs

mutual
  unfolding normalize_for_jcs

  normalize-SameJson : {a b : Json} → SameJson a b → normalize_for_jcs a ≡ normalize_for_jcs b
  normalize-SameJson (same e) = ap normalize_for_jcs e
  normalize-SameJson (same_array s) = ap array (normalize-SameItems s)
  normalize-SameJson (same_object s) = ap object (normalize-SameFields s)

  normalize-SameItems : {vs ws : Items} → SameItems vs ws → normalize_items vs ≡ normalize_items ws
  normalize-SameItems same_end = refl
  normalize-SameItems (same_item s t) = rw (normalize-SameJson s, normalize-SameItems t) refl

  normalize-SameFields :
      {fs gs : Fields} → SameFields fs gs → normalize_fields fs ≡ normalize_fields gs
  normalize-SameFields same_none = refl
  normalize-SameFields (same_field s t) = rw (normalize-SameJson s, normalize-SameFields t) refl
  normalize-SameFields (swapped {k} {j} {v} {w} {fs} {gs} h t) =
      rw (normalize-SameFields t)
        (insert_field-swap k j (normalize_for_jcs v) (normalize_for_jcs w) (normalize_fields gs) h)
  normalize-SameFields (joined s t) = normalize-SameFields s ∙ normalize-SameFields t

mutual
  unfolding verify_no_floats

  verify-SameJson :
      {a b : Json} → SameJson a b → verify_no_floats a ≡ fine tt → verify_no_floats b ≡ fine tt
  verify-SameJson (same e) h = rw (← e) h
  verify-SameJson (same_array s) h = verify-SameItems s h
  verify-SameJson (same_object s) h = verify-SameFields s h

  verify-SameItems :
      {vs ws : Items}
      → SameItems vs ws
      → verify_no_floats_items vs ≡ fine tt
      → verify_no_floats_items ws ≡ fine tt
  verify-SameItems same_end h = refl
  verify-SameItems (same_item {v} {w} {vs} {ws} s t) h =
      let (a, b) = >>-eq-fine (verify_no_floats v) (verify_no_floats_items vs) h in
      rw (verify-SameJson s a) (verify-SameItems t b)

  verify-SameFields :
      {fs gs : Fields}
      → SameFields fs gs
      → verify_no_floats_fields fs ≡ fine tt
      → verify_no_floats_fields gs ≡ fine tt
  verify-SameFields same_none h = refl
  verify-SameFields (same_field {k} {v} {w} {fs} {gs} s t) h =
      let (a, b) = >>-eq-fine (verify_no_floats v) (verify_no_floats_fields fs) h in
      rw (verify-SameJson s a) (verify-SameFields t b)
  verify-SameFields (swapped {k} {j} {v} {w} {fs} {gs} d t) h =
      let (a, rest) =
        >>-eq-fine (verify_no_floats v) (verify_no_floats w >> verify_no_floats_fields fs) h in
      let (b, c) = >>-eq-fine (verify_no_floats w) (verify_no_floats_fields fs) rest in
      rw b (rw a (verify-SameFields t c))
  verify-SameFields (joined s t) h = verify-SameFields t (verify-SameFields s h)

-- When a value has a canonical text, a value that differs from it only in the order of the entries of
-- its objects, at any depth and between entries of different keys, has that same text.
pub canonicalize_json_string-order :
    {a b : Json} (text : Text)
    → SameJson a b
    → canonicalize_json_string a ≡ fine text
    → canonicalize_json_string b ≡ fine text
unfolding canonicalize_json_string
canonicalize_json_string-order {a} {b} text s h =
    let (fits, same_text) =
      >>-eq-fine (verify_no_floats a) (fine (stringify (normalize_for_jcs a))) h in
    rw (verify-SameJson s fits, ← normalize-SameJson s) same_text
