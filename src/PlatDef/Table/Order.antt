-- ===== src/PlatDef/Table/Order.antt =====
-- The order in which a map with integer keys is gone through: `std::unordered_map` has any.
use mathlib.Core.List.{Permᴰ}
use ocp_canopy_open_bmc.Common.{
  ℕ, ◌≡◌, refl, ap, sym, subst, ◌∙◌, Bool, true, false, Bool-cases, inl, inr, ◌==◌, ==_iff,
  if◌then◌else◌, Option, none, some, List, ◌∷◌, arith,
}
use ocp_canopy_open_bmc.PlatDef.Table.{find_key, UniqueKeys}

module _ {ℓ} {V : Type ℓ} where
  passed_by :
      (b : Bool) (v : V) (o : Option V)
      → (if b then some v else o) ≡ none
      → (b ≡ false) × (o ≡ none)
  passed_by true v o e = cc
  passed_by false v o e = (refl, e)

  -- Two orders of one map: the same lookups, and no key twice in either.
  pub record SameMap (m n : List (ℕ × V)) : Type ℓ where
    pub lookups : (k : ℕ) → find_key k m ≡ find_key k n
    pub unique : UniqueKeys n

  cons-SameMap :
      (a b : ℕ × V) (m n : List (ℕ × V))
      → a ≡ b
      → UniqueKeys (a ∷ m)
      → SameMap m n
      → SameMap (a ∷ m) (b ∷ n)
  unfolding find_key
  cons-SameMap a b m n e unique same =
      subst (λ x. SameMap (a ∷ m) (x ∷ n)) e
        (record {
          lookups = λ k. ap (λ later. if a.0 == k then some a.1 else later) (same.lookups k);
          unique = (sym (same.lookups a.0) ∙ unique.0, same.unique);
        })

  swapped-SameMap :
      (a b : ℕ × V) (m : List (ℕ × V)) → UniqueKeys (a ∷ b ∷ m) → SameMap (a ∷ b ∷ m) (b ∷ a ∷ m)
  unfolding find_key
  swapped-SameMap a b m unique =
      let (apart, absent) = passed_by (b.0 == a.0) b.1 (find_key a.0 m) unique.0 in
      let apart' : (a.0 == b.0) ≡ false = ground (arith, apart) in
      record {
        lookups = λ k. elim (Bool-cases (a.0 == k)) [
          | inl hit ↦
              let missed : (b.0 == k) ≡ false =
                subst (λ j. (b.0 == j) ≡ false) ((==_iff a.0 k).0 hit) apart in
              rw (hit, missed) refl
          | inr other ↦ rw other refl
        ];
        unique = (rw apart' unique.1.0, (absent, unique.1.1));
      }

  pub perm-SameMap : {m n : List (ℕ × V)} → Permᴰ m n → UniqueKeys m → SameMap m n
  perm-SameMap Permᴰ.nil unique = record { lookups = λ k. refl; unique = tt }
  perm-SameMap (Permᴰ.cons {a = a} {b = b} {l₁ = m} {l₂ = n} e p) unique =
      cons-SameMap a b m n e unique (perm-SameMap p unique.1)
  perm-SameMap (Permᴰ.swap {a = a} {b = b} {a' = a'} {b' = b'} {l = m} e f) unique =
      subst (λ x. SameMap (a ∷ b ∷ m) (x ∷ b' ∷ m)) f
        (subst (λ y. SameMap (a ∷ b ∷ m) (b ∷ y ∷ m)) e (swapped-SameMap a b m unique))
  perm-SameMap (Permᴰ.trans p q) unique =
      let first = perm-SameMap p unique in
      let second = perm-SameMap q first.unique in
      record { lookups = λ k. first.lookups k ∙ second.lookups k; unique = second.unique }
