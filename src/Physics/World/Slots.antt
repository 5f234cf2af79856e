-- ===== src/Physics/World/Slots.antt =====
-- Lemmas on the vectors of Physics/src/World.cpp, in which the first free slot is taken.
use bark_direct_x.Prelude.{
  ℕ, zero, suc, ◌-◌, ◌≤◌, sym, ◌+◌, ◌*◌, ◌<◌, ◌≡◌, refl, ap, subst, ◌∙◌, ◌⊎◌, inl, inr, Bool, true,
  false, none, some, List, [], ◌∷◌, ◌++◌, arith, length, get_elem?, resize, resize_grow, replicate,
  length-append, length-replicate, get_elem?-append_left, get_elem?-append_right, Bool-cases,
  Option-cases, if◌then◌else◌,
}
use mathlib.Core.Option
use bark_direct_x.Physics.World.{find_if}

module _ {ℓ} {A : Type ℓ} (test : A → Bool) where
  -- The element at `i` passes the test, and none before it does.
  abbrev pub IsFirst : List A → ℕ → Type ℓ
  IsFirst xs i =
      (x : A) × (get_elem? xs i ≡ some x)
      × (test x ≡ true)
      × ((j : ℕ) (y : A) → j < i → get_elem? xs j ≡ some y → test y ≡ false)

  IsFirst-suc :
      (x : A) (xs : List A) (i : ℕ) → test x ≡ false → IsFirst xs i → IsFirst (x ∷ xs) (suc i)
  IsFirst-suc x xs i miss (y, at, hit, before) = (y, at, hit, earlier)
    where
      earlier : (j : ℕ) (z : A) → j < suc i → get_elem? (x ∷ xs) j ≡ some z → test z ≡ false
      earlier zero z l e =
          let same : x ≡ z = ground (arith, e) in subst (λ y. test y ≡ false) same miss
      earlier (suc j) z l e = before j z (omega arith) e

  pub find_if-some : (xs : List A) (i : ℕ) → find_if test xs ≡ some i → IsFirst xs i
  unfolding find_if
  find_if-some [] i h = cc
  find_if-some (x ∷ xs) i h = elim (Bool-cases (test x)) [
    | inl hit ↦
        let e : 0 ≡ i = ground (arith, h, hit) in
        subst (IsFirst (x ∷ xs)) e (x, refl, hit, λ j z l at. absurd (omega arith))
    | inr miss ↦ elim (Option-cases (find_if test xs)) [
      | inl none_left ↦
          cc (subst (λ o. (if test x then some 0 else Option.map suc o) ≡ some i) none_left h, miss)
      | inr (k, found) ↦
          let e : suc k ≡ i = ground (arith, h, miss, found) in
          subst (IsFirst (x ∷ xs)) e (IsFirst-suc x xs k miss (find_if-some xs k found))
    ]
  ]

  pub find_if-none :
      (xs : List A) (j : ℕ) (y : A)
      → find_if test xs ≡ none
      → get_elem? xs j ≡ some y
      → test y ≡ false
  unfolding find_if
  find_if-none [] j y h e = cc
  find_if-none (x ∷ xs) zero y h e = ground (arith, h, e)
  find_if-none (x ∷ xs) (suc j) y h e = find_if-none xs j y (ground (arith, h)) e

module _ {ℓ} {A : Type ℓ} (xs : List A) (a : A) where
  doubled : resize xs (length xs * 2) a ≡ xs ++ replicate (length xs) a
  doubled =
      resize_grow xs (length xs * 2) a (omega arith) ∙ ap (λ n. xs ++ replicate n a) (omega arith)

  pub length-doubled : length (resize xs (length xs * 2) a) ≡ length xs * 2
  length-doubled =
      ap length doubled
      ∙ omega (arith, length-append xs (replicate (length xs) a), length-replicate (length xs) a)

  -- The old elements stay in place, and the first new one is the given value.
  pub doubled-old :
      (i : ℕ) → i < length xs → get_elem? (resize xs (length xs * 2) a) i ≡ get_elem? xs i
  doubled-old i h =
      ap (λ ys. get_elem? ys i) doubled ∙ get_elem?-append_left xs (replicate (length xs) a) i h

  pub doubled-new : 0 < length xs → get_elem? (resize xs (length xs * 2) a) (length xs) ≡ some a
  doubled-new h =
      ap (λ ys. get_elem? ys (length xs)) doubled
      ∙ ap (get_elem? (xs ++ replicate (length xs) a)) end
      ∙ get_elem?-append_right xs (replicate (length xs) a) 0
      ∙ first (length xs) h
    where
      end : length xs ≡ length xs + 0
      end = omega arith

      first : (n : ℕ) → 0 < n → get_elem? (replicate n a) 0 ≡ some a
      first zero h = elim h [ ]
      first (suc n) h = refl

  replicate-get : (n i : ℕ) {x : A} → get_elem? (replicate n a) i ≡ some x → x ≡ a
  replicate-get zero i h = absurd (ground (arith, h))
  replicate-get (suc n) zero h = ground (arith, h)
  replicate-get (suc n) (suc i) h = replicate-get n i h

  -- What a slot of the doubled vector holds.
  pub doubled-cases :
      (i : ℕ) {x : A}
      → get_elem? (resize xs (length xs * 2) a) i ≡ some x
      → (get_elem? xs i ≡ some x) ⊎ (x ≡ a)
  doubled-cases i {x} h = elim (le-total (length xs) i) [
    | inl past ↦
        let (k, e) = past-end past in
        inr (
          replicate-get (length xs) k (
            sym (get_elem?-append_right xs (replicate (length xs) a) k)
            ∙ ap (get_elem? (xs ++ replicate (length xs) a)) e
            ∙ ap (λ ys. get_elem? ys i) (sym doubled)
            ∙ h))
    | inr inside ↦ inl (sym (doubled-old i inside) ∙ h)
  ]
    where
      past-end : length xs ≤ i → (k : ℕ) × (length xs + k ≡ i)
      past-end l = (i - length xs, omega arith)

      le-total : (m n : ℕ) → (m ≤ n) ⊎ (n < m)
      le-total m n = omega arith
