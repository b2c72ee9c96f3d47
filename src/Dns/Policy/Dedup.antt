-- ===== src/Dns/Policy/Dedup.antt =====
-- src/dns/policy.rs: `dedup`.
use openiwan.Prelude.{
  ℕ, zero, suc, ◌≤◌, ◌≡◌, inl, inr, Bool-cases, Bool, false, List, [], ◌∷◌, length, take, any, All,
  All-take, arith,
}
use openiwan.Dns.Policy.{dedup_from}

-- No value is the same as a later one.
abbrev pub Distinct {ℓ} : {A : Type ℓ} → (A → A → Bool) → List A → Type 0
Distinct same [] = Unit
Distinct same (x ∷ xs) = All (λ y. same y x ≡ false) xs × Distinct same xs

module _ {ℓ} {A : Type ℓ} (same : A → A → Bool) where
  -- What is kept was not seen, and no value is kept twice.
  abbrev pub Fresh : List A → List A → Type 0
  Fresh seen xs = All (λ x. any (same x) seen ≡ false) xs

  pub weaken-Fresh :
      (v : A) (seen xs : List A)
      → Fresh (v ∷ seen) xs
      → Fresh seen xs × All (λ x. same x v ≡ false) xs
  weaken-Fresh v seen [] h = (tt, tt)
  weaken-Fresh v seen (x ∷ xs) h =
      let (fresh, differ) = weaken-Fresh v seen xs h.1 in
      ((ground arith, fresh), (ground arith, differ))

  pub dedup_from-Distinct :
      (seen values : List A)
      → Fresh seen (dedup_from same seen values) × Distinct same (dedup_from same seen values)
  unfolding dedup_from
  dedup_from-Distinct seen [] = (tt, tt)
  dedup_from-Distinct seen (v ∷ values) = elim (Bool-cases (any (same v) seen)) [
    | inl known ↦ rw known (dedup_from-Distinct seen values)
    | inr new ↦
        let (fresh, distinct) = dedup_from-Distinct (v ∷ seen) values in
        let (kept, differ) = weaken-Fresh v seen (dedup_from same (v ∷ seen) values) fresh in
        rw new ((new, kept), (differ, distinct))
  ]

  pub dedup_from-All :
      (P : A → Type 0) (seen values : List A) → All P values → All P (dedup_from same seen values)
  unfolding dedup_from
  dedup_from-All P seen [] h = tt
  dedup_from-All P seen (v ∷ values) h = elim (Bool-cases (any (same v) seen)) [
    | inl known ↦ rw known (dedup_from-All P seen values h.1)
    | inr new ↦ rw new (h.0, dedup_from-All P (v ∷ seen) values h.1)
  ]

  pub length-dedup_from :
      (seen values : List A) → length (dedup_from same seen values) ≤ length values
  unfolding dedup_from
  length-dedup_from seen [] = omega arith
  length-dedup_from seen (v ∷ values) = elim (Bool-cases (any (same v) seen)) [
    | inl known ↦ rw known (omega (arith, length-dedup_from seen values))
    | inr new ↦ rw new (omega (arith, length-dedup_from (v ∷ seen) values))
  ]

  pub take-Distinct : (n : ℕ) (xs : List A) → Distinct same xs → Distinct same (take n xs)
  take-Distinct zero xs h = tt
  take-Distinct (suc n) [] h = tt
  take-Distinct (suc n) (x ∷ xs) h = (All-take _ n xs h.0, take-Distinct n xs h.1)

pub length-take-le {ℓ} : {A : Type ℓ} (n : ℕ) (xs : List A) → length (take n xs) ≤ n
length-take-le zero xs = omega arith
length-take-le (suc n) [] = omega arith
length-take-le (suc n) (x ∷ xs) = omega (arith, length-take-le n xs)
