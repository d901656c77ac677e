-- ===== src/EffectiveRisk/Fields.antt =====
-- Three lists of fields, combined position by position.
use trade_ai_server.Prelude.{List, [], ◌∷◌, All, ◌↔◌}

module _ {ℓ} {A : Type ℓ} where
  -- A function that keeps a property, on three lists of one length.
  unfoldable pub zip3 : (A → A → A → A) → List A → List A → List A → List A
  zip3 f (x ∷ xs) (y ∷ ys) (z ∷ zs) = f x y z ∷ zip3 f xs ys zs
  zip3 f _ _ _ = []

  pub All-zip3 {κ} :
      {P : A → Type κ} (f : A → A → A → A) (xs ys zs : List A)
      → ((x y z : A) → P x → P y → P z → P (f x y z))
      → All P xs
      → All P ys
      → All P zs
      → All P (zip3 f xs ys zs)
  unfolding zip3
  All-zip3 f [] ys zs h p q r = tt
  All-zip3 f (x ∷ xs) [] zs h p q r = tt
  All-zip3 f (x ∷ xs) (y ∷ ys) [] h p q r = tt
  All-zip3 f (x ∷ xs) (y ∷ ys) (z ∷ zs) h p q r =
      (h x y z p.0 q.0 r.0, All-zip3 f xs ys zs h p.1 q.1 r.1)

  -- lists of one length
  abbrev pub SameLength : List A → List A → List A → List A → Type 0
  SameLength [] [] [] [] = Unit
  SameLength (_ ∷ cs) (_ ∷ xs) (_ ∷ ys) (_ ∷ zs) = SameLength cs xs ys zs
  SameLength _ _ _ _ = ⊥

  -- A relation at each position of two lists of one length.
  abbrev pub Each {κ} : (A → A → Type κ) → List A → List A → Type κ
  Each R [] [] = Unit
  Each R (x ∷ xs) (y ∷ ys) = R x y × Each R xs ys
  Each R _ _ = Unit

  -- Being related to a combination is being related to what is combined, at each position.
  pub Each-zip3 {κ} :
      {R : A → A → Type κ} (f : A → A → A → A) (cs xs ys zs : List A)
      → ((c x y z : A) → R c (f x y z) ↔ (R c x × R c y × R c z))
      → SameLength cs xs ys zs
      → Each R cs (zip3 f xs ys zs) ↔ (Each R cs xs × Each R cs ys × Each R cs zs)
  unfolding zip3
  Each-zip3 f [] [] [] [] h same = (λ _. (tt, tt, tt), λ _. tt)
  Each-zip3 f [] [] [] (z ∷ zs) h same = absurd same
  Each-zip3 f [] [] (y ∷ ys) zs h same = absurd same
  Each-zip3 f [] (x ∷ xs) ys zs h same = absurd same
  Each-zip3 f (c ∷ cs) [] ys zs h same = absurd same
  Each-zip3 f (c ∷ cs) (x ∷ xs) [] zs h same = absurd same
  Each-zip3 f (c ∷ cs) (x ∷ xs) (y ∷ ys) [] h same = absurd same
  Each-zip3 f (c ∷ cs) (x ∷ xs) (y ∷ ys) (z ∷ zs) h same =
      let rest = Each-zip3 f cs xs ys zs h same in
      (
        λ (first, others).
            let (a, b, d) = (h c x y z).0 first in
            let (p, q, r) = rest.0 others in ((a, p), (b, q), (d, r)),
        λ ((a, p), (b, q), (d, r)). ((h c x y z).1 (a, b, d), rest.1 (p, q, r)),
      )

  pub Each-refl {κ} : (R : A → A → Type κ) → ((x : A) → R x x) → (xs : List A) → Each R xs xs
  Each-refl R h [] = tt
  Each-refl R h (x ∷ xs) = (h x, Each-refl R h xs)
