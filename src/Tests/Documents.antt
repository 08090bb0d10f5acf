-- ===== src/Tests/Documents.antt =====
-- Two objects with the same members in another order.
use barq_control_plane.Base.{String, ◌≡◌, refl, ◌<>◌}
use barq_control_plane.DataPlane.Canonical.{
  Json, object, number, member, no_members, array, item, no_items, write_canonical,
}
use barq_control_plane.DataPlane.Canonical.Laws.{
  Reordered, objects, arrays, both, no_more, swap, write_canonical-Reordered,
}

abbrev quote_text : String → String
quote_text s = "'" <> (s <> "'")

abbrev point : Json
point = object (member "x" (number "1") (member "y" (number "2") no_members))

abbrev turned_point : Json
turned_point = object (member "y" (number "2") (member "x" (number "1") no_members))

abbrev turned : Reordered (array (item point no_items)) (array (item turned_point no_items))
turned = arrays _ _ (
    both point turned_point no_items no_items
      (objects _ _ (swap "x" "y" (number "1") (number "2") no_members refl)) no_more)

write_canonical-Reordered_example :
    write_canonical quote_text (array (item point no_items))
    ≡ write_canonical quote_text (array (item turned_point no_items))
write_canonical-Reordered_example =
    write_canonical-Reordered quote_text (array (item point no_items))
      (array (item turned_point no_items)) turned
