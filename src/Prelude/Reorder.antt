-- ===== src/Prelude/Reorder.antt =====
-- Association lists in another order.
use mathlib.Core.Path.{◌≡◌, refl, sym, ◌∙◌, subst}
use mathlib.Core.Option.{Option, none}
use mathlib.Core.List.{List, [], ◌∷◌, Permᴰ}
use mathlib.Core.List.Permᴰ
use mathlib.Core.Logic.{inl, inr}
use native.Mathlib.Omega.{arith}
use hut_karish.Prelude.Tests.{Bool-cases}
use hut_karish.Prelude.Assoc.{Eq, find, assign, find-assign, find-nil}

module _ {ℓ κ} {K : Type ℓ} {V : Type κ} ⦃e : Eq K⦄ where
  -- No key comes twice.
  abbrev pub IsDistinct : List (K × V) → Type κ
  IsDistinct [] = Unit {κ}
  IsDistinct ((j, v) ∷ m) = (◌≡◌ {A = Option V} (find j m) none) × IsDistinct m

  abbrev pub SameFinds : List (K × V) → List (K × V) → Type (ℓ ⊔ κ)
  SameFinds m n = (k : K) → ◌≡◌ {A = Option V} (find k m) (find k n)

  find-cons : (x : K × V) (m n : List (K × V)) → SameFinds m n → SameFinds (x ∷ m) (x ∷ n)
  unfolding find
  find-cons (j, v) m n same k = ground (arith, same k)

  swapped :
      (x y : K × V) (m : List (K × V))
      → IsDistinct (x ∷ y ∷ m)
      → IsDistinct (y ∷ x ∷ m) × SameFinds (x ∷ y ∷ m) (y ∷ x ∷ m)
  unfolding find
  swapped (i, v) (j, w) m (h, (g, d)) = (
    (ground (arith, e.beq_iff i j, e.beq_iff j i, h, g), (ground (arith, h), d)),
    λ k. ground (arith, e.beq_iff i k, e.beq_iff j k, e.beq_iff j i, h, g),
  )

  pub Permᴰ-IsDistinct :
      {m n : List (K × V)} → Permᴰ m n → IsDistinct m → IsDistinct n × SameFinds m n
  Permᴰ-IsDistinct Permᴰ.nil d = (tt, λ k. refl)
  Permᴰ-IsDistinct (Permᴰ.cons {a} {b} {l₁} {l₂} same p) (h, d) =
      let (d', finds) = Permᴰ-IsDistinct p d in
      subst (λ x. IsDistinct (x ∷ l₂) × SameFinds (a ∷ l₁) (x ∷ l₂)) same
        ((sym (finds a.0) ∙ h, d'), find-cons a l₁ l₂ finds)
  Permᴰ-IsDistinct (Permᴰ.swap {a} {b} {a'} {b'} {l} f g) d =
      subst (λ x. IsDistinct (a' ∷ x ∷ l) × SameFinds (a ∷ b ∷ l) (a' ∷ x ∷ l)) f
        (subst (λ x. IsDistinct (x ∷ a ∷ l) × SameFinds (a ∷ b ∷ l) (x ∷ a ∷ l)) g
          (swapped a b l d))
  Permᴰ-IsDistinct (Permᴰ.trans p q) d =
      let (d', finds) = Permᴰ-IsDistinct p d in
      let (d'', finds') = Permᴰ-IsDistinct q d' in (d'', λ k. finds k ∙ finds' k)

  pub assign-IsDistinct :
      (k : K) (v : V) (m : List (K × V)) → IsDistinct m → IsDistinct (assign k v m)
  unfolding assign
  assign-IsDistinct k v [] d = (find-nil k, tt)
  assign-IsDistinct k v ((j, w) ∷ m) (h, d) = elim (Bool-cases (e.beq j k)) [
    | inl f ↦ rw f (h, d)
    | inr f ↦ rw f (
      ground (arith, find-assign k j v m, h, f, e.beq_iff j k, e.beq_iff k j),
      assign-IsDistinct k v m d,
    )
  ]

  swap-assign :
      (k : K) (v : V) (x y : K × V) (m : List (K × V))
      → IsDistinct (x ∷ y ∷ m)
      → Permᴰ (assign k v (x ∷ y ∷ m)) (assign k v (y ∷ x ∷ m))
  unfolding assign find
  swap-assign k v (i, u) (j, w) m (h, d) = elim (Bool-cases (e.beq i k)) [
    | inl f ↦ elim (Bool-cases (e.beq j k)) [
      | inl g ↦ absurd (ground (arith, h, f, g, e.beq_iff i k, e.beq_iff j k, e.beq_iff j i))
      | inr g ↦ rw (f, g) (Permᴰ.swap refl refl)
    ]
    | inr f ↦ elim (Bool-cases (e.beq j k)) [
      | inl g ↦ rw (f, g) (Permᴰ.swap refl refl)
      | inr g ↦ rw (f, g) (Permᴰ.swap refl refl)
    ]
  ]

  cons-assign :
      (k : K) (v : V) (x : K × V) (m n : List (K × V))
      → Permᴰ m n
      → Permᴰ (assign k v m) (assign k v n)
      → Permᴰ (assign k v (x ∷ m)) (assign k v (x ∷ n))
  unfolding assign
  cons-assign k v (j, w) m n p q = elim (Bool-cases (e.beq j k)) [
    | inl f ↦ rw f (Permᴰ.cons refl p)
    | inr f ↦ rw f (Permᴰ.cons refl q)
  ]

  pub assign-Permᴰ :
      (k : K) (v : V) {m n : List (K × V)}
      → Permᴰ m n
      → IsDistinct m
      → Permᴰ (assign k v m) (assign k v n)
  assign-Permᴰ k v Permᴰ.nil d = Permᴰ.refl _
  assign-Permᴰ k v (Permᴰ.cons {a} {b} {l₁} {l₂} same p) d =
      subst (λ x. Permᴰ (assign k v (a ∷ l₁)) (assign k v (x ∷ l₂))) same
        (cons-assign k v a l₁ l₂ p (assign-Permᴰ k v p d.1))
  assign-Permᴰ k v (Permᴰ.swap {a} {b} {a'} {b'} {l} f g) d =
      subst (λ x. Permᴰ (assign k v (a ∷ b ∷ l)) (assign k v (a' ∷ x ∷ l))) f
        (subst (λ x. Permᴰ (assign k v (a ∷ b ∷ l)) (assign k v (x ∷ a ∷ l))) g
          (swap-assign k v a b l d))
  assign-Permᴰ k v (Permᴰ.trans p q) d =
      Permᴰ.trans (assign-Permᴰ k v p d) (assign-Permᴰ k v q (Permᴰ-IsDistinct p d).0)
