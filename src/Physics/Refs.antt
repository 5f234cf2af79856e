-- ===== src/Physics/Refs.antt =====
-- Physics/include/Refs.h, and the pairs of collider references of Physics/include/Collider.h.
pub mod Pairs
use bark_direct_x.Prelude.{ℕ, Bool, ◌&&◌, ◌||◌, ◌==◌}
use Prim.Native.Nat.{bit_xor}

pub record BodyRef : Type 0 where
  pub index : ℕ
  pub gen_index : ℕ

pub record ColliderRef : Type 0 where
  pub index : ℕ
  pub gen_index : ℕ

unfoldable pub body_ref_eq : BodyRef → BodyRef → Bool
body_ref_eq a b = a.index == b.index && a.gen_index == b.gen_index

unfoldable pub collider_ref_eq : ColliderRef → ColliderRef → Bool
collider_ref_eq a b = a.index == b.index && a.gen_index == b.gen_index

pub record ColliderRefPair : Type 0 where
  pub col_ref_a : ColliderRef
  pub col_ref_b : ColliderRef

-- `ColliderRefPair::operator==`: the order of the two references does not matter.
unfoldable pub pair_eq : ColliderRefPair → ColliderRefPair → Bool
unfolding collider_ref_eq
pair_eq p q =
    collider_ref_eq p.col_ref_a q.col_ref_a && collider_ref_eq p.col_ref_b q.col_ref_b
    || collider_ref_eq p.col_ref_a q.col_ref_b && collider_ref_eq p.col_ref_b q.col_ref_a

-- `ColliderRefPairHash`, over `std::hash<size_t>`.
unfoldable pub pair_hash : (ℕ → ℕ) → ColliderRefPair → ℕ
pair_hash hash pair = bit_xor (hash pair.col_ref_a.index) (hash pair.col_ref_b.index)
