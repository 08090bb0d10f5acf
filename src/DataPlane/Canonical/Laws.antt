-- ===== src/DataPlane/Canonical/Laws.antt =====
-- Canonical JSON does not depend on the order of the members of objects.
use barq_control_plane.Base.{String, ◌≡◌, refl, ap, ap₂, ◌∙◌, ◌==◌, false, List, [], ◌∷◌, arith}
use barq_control_plane.Base.Order.{str_leb_both, str_leb_total, str_leb_trans}
use barq_control_plane.Base.Sorting.{sort_by, insert_by}
use barq_control_plane.DataPlane.Canonical.{
  Json, Members, Items, Written, object, array, other, no_members, member, no_items, item,
  key_before, write_members, then_items, write_canonical, write_values, write_items,
}

-- Two elements with different keys may be inserted in either order.
insert_by_comm :
    (v w : Written) (ws : List Written)
    → (v.key == w.key) ≡ false
    → insert_by key_before v (insert_by key_before w ws)
      ≡ insert_by key_before w (insert_by key_before v ws)
unfolding insert_by
insert_by_comm v w [] apart =
    ground (arith, apart, str_leb_both v.key w.key, str_leb_total v.key w.key)
insert_by_comm v w (x ∷ ws) apart = ground (
  arith,
  apart,
  insert_by_comm v w ws apart,
  str_leb_both v.key w.key,
  str_leb_total v.key w.key,
  str_leb_trans v.key w.key x.key,
  str_leb_trans w.key v.key x.key,
)

-- Values that differ in the order in which the members of objects stand, at any depth.
mutual
  pub data Reordered : Json → Json → Type 0 where
    same : (x : Json) → Reordered x x
    objects : (ms ns : Members) → Shuffled ms ns → Reordered (object ms) (object ns)
    arrays : (xs ys : Items) → Each xs ys → Reordered (array xs) (array ys)
    others : (x y : Json) → Reordered x y → Reordered (other x) (other y)

  pub data Shuffled : Members → Members → Type 0 where
    none_left : Shuffled no_members no_members
    keep :
        (k : String) (x y : Json) (ms ns : Members)
        → Reordered x y
        → Shuffled ms ns
        → Shuffled (member k x ms) (member k y ns)
    swap :
        (k l : String) (x y : Json) (ms : Members)
        → (k == l) ≡ false
        → Shuffled (member k x (member l y ms)) (member l y (member k x ms))
    joined : (ms ns os : Members) → Shuffled ms ns → Shuffled ns os → Shuffled ms os

  pub data Each : Items → Items → Type 0 where
    no_more : Each no_items no_items
    both : (x y : Json) (xs ys : Items) → Reordered x y → Each xs ys → Each (item x xs) (item y ys)

module _ (quote : String → String) where
  mutual
    unfolding write_canonical sort_by

    Reordered-write :
        {x y : Json} → Reordered x y → write_canonical quote x ≡ write_canonical quote y
    Reordered-write (same x) = refl
    Reordered-write (objects ms ns s) = ap (write_members quote) (Shuffled-write s)
    Reordered-write (arrays no_items _ no_more) = refl
    Reordered-write (arrays _ _ (both x y xs ys r e)) =
        ap₂ (then_items quote "[") (Reordered-write r) (Each-write e)
    Reordered-write (others x y r) = Reordered-write r

    Shuffled-write :
        {ms ns : Members}
        → Shuffled ms ns
        → sort_by key_before (write_values quote ms) ≡ sort_by key_before (write_values quote ns)
    Shuffled-write none_left = refl
    Shuffled-write (keep k x y ms ns r s) =
        ap₂ (λ v ws. insert_by key_before (record { key = k; value = v }) ws) (Reordered-write r)
          (Shuffled-write s)
    Shuffled-write (swap k l x y ms apart) =
        insert_by_comm (record { key = k; value = write_canonical quote x })
          (record { key = l; value = write_canonical quote y })
          (sort_by key_before (write_values quote ms)) apart
    Shuffled-write (joined ms ns os s t) = Shuffled-write s ∙ Shuffled-write t

    Each-write : {xs ys : Items} → Each xs ys → write_items quote xs ≡ write_items quote ys
    Each-write no_more = refl
    Each-write (both x y xs ys r e) = ap₂ (then_items quote ",") (Reordered-write r) (Each-write e)

  -- Values that differ only in the order in which the members of objects are ranged over, at any
  -- depth, have one canonical text, or fail with one error.
  pub write_canonical-Reordered :
      (x y : Json) → Reordered x y → write_canonical quote x ≡ write_canonical quote y
  write_canonical-Reordered x y r = Reordered-write r
