-- ===== src/DataPlane/Canonical.antt =====
-- Canonical JSON: internal/dataplane/canonical.go. `quote` is `json.Marshal` of a string, and
-- `digest` the SHA-256 sum in base64.
pub mod Laws
use barq_control_plane.Base.{
  String, ◌<>◌, if◌then◌else◌, Bool, true, false, List, [], ◌∷◌, Error, Result, ok, err, ◌>>=◌,
  wrap,
}
use barq_control_plane.Base.Order.{str_leb}
use barq_control_plane.Base.Sorting.{sort_by}

-- The values that `writeCanonical` tells apart. A number is the text that strconv, or its
-- json.Number, gives for it; the members of an object stand in the order in which the map is ranged
-- over, with distinct keys. Of any other type, `other` has what encoding and decoding it gives, and
-- `unsupported` the error of either.
mutual
  pub data Json : Type 0 where
    null : Json
    boolean : Bool → Json
    text : String → Json
    number : String → Json
    object : Members → Json
    array : Items → Json
    other : Json → Json
    unsupported : Error → Json

  pub data Members : Type 0 where
    no_members : Members
    member : String → Json → Members → Members

  pub data Items : Type 0 where
    no_items : Items
    item : Json → Items → Items

-- A member of an object, and what is written for its value.
pub record Written : Type 0 where
  pub key : String
  pub value : Result String

abbrev pub key_before : Written → Written → Bool
key_before a b = str_leb a.key b.key

module _ (quote : String → String) where
  abbrev pub member_text : Written → Result String
  member_text w = do value ← w.value; ok (quote w.key <> (":" <> value))

  -- The rest of the loop over the sorted keys.
  unfoldable pub write_more : List Written → Result String
  write_more [] = ok "}"
  write_more (w ∷ ws) = do here ← member_text w; rest ← write_more ws; ok ("," <> (here <> rest))

  unfoldable pub write_members : List Written → Result String
  unfolding write_more
  write_members [] = ok "{}"
  write_members (w ∷ ws) = do here ← member_text w; rest ← write_more ws; ok ("{" <> (here <> rest))

  abbrev pub then_items : String → Result String → Result String → Result String
  then_items mark here rest = do first ← here; more ← rest; ok (mark <> (first <> more))

  unfoldable mutual
    unfolding write_members sort_by

    pub write_canonical : Json → Result String
    write_canonical null = ok "null"
    write_canonical (boolean b) = if b then ok "true" else ok "false"
    write_canonical (text s) = ok (quote s)
    write_canonical (number n) = ok n
    write_canonical (object ms) = write_members (sort_by key_before (write_values ms))
    write_canonical (array no_items) = ok "[]"
    write_canonical (array (item x xs)) = then_items "[" (write_canonical x) (write_items xs)
    write_canonical (other x) = write_canonical x
    write_canonical (unsupported e) = err e

    pub write_values : Members → List Written
    write_values no_members = []
    write_values (member k x ms) = record { key = k; value = write_canonical x } ∷ write_values ms

    pub write_items : Items → Result String
    write_items no_items = ok "]"
    write_items (item x xs) = then_items "," (write_canonical x) (write_items xs)

  -- ETag
  unfoldable pub etag : (String → String) → Json → Result String
  unfolding write_canonical
  etag digest value = do canonical ← write_canonical value; ok ("\"" <> (digest canonical <> "\""))
