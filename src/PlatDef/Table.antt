-- ===== src/PlatDef/Table.antt =====
-- `std::unordered_map` with integer keys: an association list that holds a key at most once.
pub mod Order
use ocp_canopy_open_bmc.Common.{
  ℕ, false, Bool-cases, inl, inr, subst, ◌==◌, ==_iff, if◌then◌else◌, if-intro, Option, none, some,
  List, [], ◌∷◌, ◌≡◌, refl, sym, ◌∙◌, arith, All,
}

module _ {ℓ} {V : Type ℓ} where
  -- `find`
  unfoldable pub find_key : ℕ → List (ℕ × V) → Option V
  find_key k [] = none
  find_key k ((j, v) ∷ m) = let later = find_key k m in if j == k then some v else later

  -- `m[k] = v`
  unfoldable pub put : ℕ → V → List (ℕ × V) → List (ℕ × V)
  put k v [] = (k, v) ∷ []
  put k v ((j, w) ∷ m) = let later = put k v m in if j == k then (j, v) ∷ m else (j, w) ∷ later

  -- No key stands twice.
  abbrev pub UniqueKeys : List (ℕ × V) → Type ℓ
  UniqueKeys [] = Unit
  UniqueKeys ((k, v) ∷ m) = (find_key k m ≡ none) × UniqueKeys m

  pub find_key-put_same : (k : ℕ) (v : V) (m : List (ℕ × V)) → find_key k (put k v m) ≡ some v
  unfolding find_key put
  find_key-put_same k v [] = ground arith
  find_key-put_same k v ((j, w) ∷ m) = ground (arith, find_key-put_same k v m)

  pub find_key-put_other :
      (k l : ℕ) (v : V) (m : List (ℕ × V))
      → (k == l) ≡ false
      → find_key l (put k v m) ≡ find_key l m
  unfolding find_key put
  find_key-put_other k l v [] other = ground arith
  find_key-put_other k l v ((j, w) ∷ m) other = ground (arith, find_key-put_other k l v m other)

  pub put-UniqueKeys : (k : ℕ) (v : V) (m : List (ℕ × V)) → UniqueKeys m → UniqueKeys (put k v m)
  unfolding put find_key
  put-UniqueKeys k v [] unique = (refl, tt)
  put-UniqueKeys k v ((j, w) ∷ m) unique = elim (Bool-cases (j == k)) [
    | inl same ↦ rw same (unique.0, unique.1)
    | inr other ↦
        rw other
          (find_key-put_other k j v m (ground arith) ∙ unique.0, put-UniqueKeys k v m unique.1)
  ]

  pub put-All {κ} :
      (P : ℕ × V → Type κ) (k : ℕ) (v : V) (m : List (ℕ × V))
      → P (k, v)
      → All P m
      → All P (put k v m)
  unfolding put
  put-All P k v [] here rest = (here, tt)
  put-All P k v ((j, w) ∷ m) here rest = elim (Bool-cases (j == k)) [
    | inl same ↦ rw same (subst (λ i. P (i, v)) (sym ((==_iff j k).0 same)) here, rest.1)
    | inr other ↦ rw other (rest.0, put-All P k v m here rest.1)
  ]

  -- What a lookup finds is an entry.
  pub find_key-All {κ} :
      (P : ℕ × V → Type κ) (k : ℕ) (v : V) (m : List (ℕ × V))
      → All P m
      → find_key k m ≡ some v
      → P (k, v)
  unfolding find_key
  find_key-All P k v [] each h = absurd (ground arith)
  find_key-All P k v ((j, w) ∷ m) each h =
      if-intro (λ (o : Option V). o ≡ some v → P (k, v)) (j == k)
        (λ same e.
          let key : j ≡ k = (==_iff j k).0 same in
          let value : w ≡ v = cc e in
          subst (λ x. P (x, v)) key (subst (λ x. P (j, x)) value each.0))
        (λ _ e. find_key-All P k v m each.1 e) h
