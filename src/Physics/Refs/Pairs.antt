-- ===== src/Physics/Refs/Pairs.antt =====
-- Pairs of collider references as keys of `std::unordered_set`.
use bark_direct_x.Prelude.{ℕ, ◌≡◌, ap, ◌∙◌, ◌↔◌, ◌⊎◌, inl, inr, true, arith}
use bark_direct_x.Prelude.Xor.{xor_comm}
use bark_direct_x.Physics.Refs.{ColliderRef, ColliderRefPair, collider_ref_eq, pair_eq, pair_hash}

pub collider_ref_eq_iff : (a b : ColliderRef) → (collider_ref_eq a b ≡ true) ↔ (a ≡ b)
unfolding collider_ref_eq
collider_ref_eq_iff a b = (λ h. ground arith, λ h. ground arith)

abbrev pub flip : ColliderRefPair → ColliderRefPair
flip p = record { col_ref_a = p.col_ref_b; col_ref_b = p.col_ref_a }

-- Two pairs are equal exactly if they hold the same two references, in either order.
pub pair_eq_iff : (p q : ColliderRefPair) → (pair_eq p q ≡ true) ↔ ((p ≡ q) ⊎ (p ≡ flip q))
unfolding pair_eq
pair_eq_iff p q = (λ h. ground arith, λ h. ground arith)

pub pair_eq_refl : (p : ColliderRefPair) → pair_eq p p ≡ true
unfolding pair_eq
pair_eq_refl p = ground arith

pub pair_eq_sym : (p q : ColliderRefPair) → pair_eq p q ≡ true → pair_eq q p ≡ true
unfolding pair_eq
pair_eq_sym p q h = ground arith

pub pair_eq_trans :
    (p q r : ColliderRefPair) → pair_eq p q ≡ true → pair_eq q r ≡ true → pair_eq p r ≡ true
unfolding pair_eq
pair_eq_trans p q r h k = ground arith

-- `pair_eq` is reflexive, symmetric and transitive, and equal pairs have equal hashes, whatever
-- `std::hash` is: what `std::unordered_set` asks of its key.
pub pair_eq-hash :
    (hash : ℕ → ℕ) (p q r : ColliderRefPair)
    → pair_eq p q ≡ true
    → pair_eq q r ≡ true
    → (pair_eq p p ≡ true)
      × (pair_eq q p ≡ true)
      × (pair_eq p r ≡ true)
      × (pair_hash hash p ≡ pair_hash hash q)
unfolding pair_hash
pair_eq-hash hash p q r h k =
    (pair_eq_refl p, pair_eq_sym p q h, pair_eq_trans p q r h k, same_hash)
  where
    same_hash : pair_hash hash p ≡ pair_hash hash q
    same_hash = elim ((pair_eq_iff p q).0 h) [
      | inl e ↦ ap (pair_hash hash) e
      | inr e ↦ ap (pair_hash hash) e ∙ xor_comm _ _
    ]
