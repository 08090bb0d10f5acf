-- ===== src/Control/Types/Laws.antt =====
-- The identity of a record.
use barq_control_plane.Base.{String, ◌≡◌, ◌<>◌, len}
use barq_control_plane.Base.Decimal.{decimal, decimal-injective}
use barq_control_plane.Base.Keys.{cut_at_colon, cut_at_len, every-decimal}
use barq_control_plane.Control.Types.{record_id}

-- Equal record ids come from equal collections and equal keys, whatever these texts are.
pub record_id-injective :
    (c c' k k' : String) → record_id c k ≡ record_id c' k' → (c ≡ c') × (k ≡ k')
unfolding record_id
record_id-injective c c' k k' h =
    let (a, b) =
      cut_at_colon (decimal (len c)) (decimal (len c')) (c <> k) (c' <> k') (every-decimal (len c))
        (every-decimal (len c')) h in
    cut_at_len c c' k k' (decimal-injective (len c) (len c') a) b
