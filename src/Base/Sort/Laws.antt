-- ===== src/Base/Sort/Laws.antt =====
-- A sort permutes its list, orders it, and depends on the list up to order alone.
use mathlib.Core.List.{List, [], ◌∷◌, Perm, Permᴰ}
use mathlib.Core.List.Perm
use telemetry_one_backend.Base.Tests.{Bool-cases}
use mathlib.Core.Path.{◌≡◌, refl, ◌∙◌}
use mathlib.Core.Bool.{Bool, true, false}
use mathlib.Core.Logic.{inl, inr, ∥∥₁_elim}
use native.Mathlib.Omega.{arith}
use telemetry_one_backend.Base.Lists.{All, length}
use Prim.Native.Nat.{suc}
use telemetry_one_backend.Base.Sort.{insert_by, sort_by}

-- The order of a `less` that Go's sort takes: strict and weak.
pub record IsOrder {ℓ} {A : Type ℓ} (less : A → A → Bool) : Type ℓ where
  pub asymm : (x y : A) → less x y ≡ true → less y x ≡ false
  pub trans : (x y z : A) → less y x ≡ false → less z y ≡ false → less z x ≡ false

-- Two elements neither of which is less than the other are one.
abbrev pub IsTotal {ℓ} : {A : Type ℓ} → (A → A → Bool) → Type ℓ
IsTotal {A} less = (x y : A) → less x y ≡ false → less y x ≡ false → x ≡ y

-- No element is less than one before it.
abbrev pub IsSorted {ℓ} : {A : Type ℓ} → (A → A → Bool) → List A → Type 0
IsSorted less [] = Unit
IsSorted less (x ∷ xs) = All (λ y. less y x ≡ false) xs × IsSorted less xs

module _ {ℓ} {A : Type ℓ} (less : A → A → Bool) where
  pub insert_by-perm : (x : A) (l : List A) → Perm (insert_by less x l) (x ∷ l)
  unfolding insert_by
  insert_by-perm x [] = Perm.refl (x ∷ [])
  insert_by-perm x (y ∷ ys) = elim (Bool-cases (less y x)) [
    | inl h ↦ rw h (Perm.trans (Perm.cons y (insert_by-perm x ys)) (Perm.swap x y ys))
    | inr h ↦ rw h (Perm.refl (x ∷ y ∷ ys))
  ]

  pub sort_by-perm : (l : List A) → Perm (sort_by less l) l
  unfolding sort_by
  sort_by-perm [] = Perm.refl []
  sort_by-perm (x ∷ xs) =
      Perm.trans (insert_by-perm x (sort_by less xs)) (Perm.cons x (sort_by-perm xs))

  pub All-insert_by {κ} :
      (P : A → Type κ) (x : A) (l : List A) → P x → All P l → All P (insert_by less x l)
  unfolding insert_by
  All-insert_by P x [] h a = (h, tt)
  All-insert_by P x (y ∷ ys) h a = elim (Bool-cases (less y x)) [
    | inl e ↦ rw e (a.0, All-insert_by P x ys h a.1)
    | inr e ↦ rw e (h, a)
  ]

  pub All-sort_by {κ} : (P : A → Type κ) (l : List A) → All P l → All P (sort_by less l)
  unfolding sort_by
  All-sort_by P [] a = tt
  All-sort_by P (x ∷ xs) a = All-insert_by P x (sort_by less xs) a.0 (All-sort_by P xs a.1)

  length-insert_by : (x : A) (l : List A) → length (insert_by less x l) ≡ suc (length l)
  unfolding insert_by
  length-insert_by x [] = refl
  length-insert_by x (y ∷ ys) = ground (arith, length-insert_by x ys)

  pub length-sort_by : (l : List A) → length (sort_by less l) ≡ length l
  unfolding sort_by
  length-sort_by [] = refl
  length-sort_by (x ∷ xs) = omega (arith, length-insert_by x (sort_by less xs), length-sort_by xs)

  module _ (order : IsOrder less) where
    open order use {asymm, trans}

    All-weaken :
        (x y : A) (l : List A)
        → less y x ≡ false
        → All (λ z. less z y ≡ false) l
        → All (λ z. less z x ≡ false) l
    All-weaken x y [] h a = tt
    All-weaken x y (z ∷ zs) h a = (trans x y z h a.0, All-weaken x y zs h a.1)

    pub insert_by-IsSorted :
        (x : A) (l : List A) → IsSorted less l → IsSorted less (insert_by less x l)
    unfolding insert_by
    insert_by-IsSorted x [] s = (tt, tt)
    insert_by-IsSorted x (y ∷ ys) s = elim (Bool-cases (less y x)) [
      | inl h ↦ rw h (
        All-insert_by (λ z. less z y ≡ false) x ys (asymm y x h) s.0,
        insert_by-IsSorted x ys s.1,
      )
      | inr h ↦ rw h ((h, All-weaken x y ys h s.0), s)
    ]

    pub sort_by-IsSorted : (l : List A) → IsSorted less (sort_by less l)
    unfolding sort_by
    sort_by-IsSorted [] = tt
    sort_by-IsSorted (x ∷ xs) = insert_by-IsSorted x (sort_by less xs) (sort_by-IsSorted xs)

    module _ (total : IsTotal less) where
      pub insert_by-insert_by :
          (x y : A) (l : List A)
          → insert_by less x (insert_by less y l) ≡ insert_by less y (insert_by less x l)
      unfolding insert_by
      insert_by-insert_by x y [] = ground (arith, total x y, asymm x y, asymm y x)
      insert_by-insert_by x y (z ∷ zs) = ground (
        arith,
        total x y,
        asymm x y,
        asymm y x,
        trans x y z,
        trans y x z,
        insert_by-insert_by x y zs,
      )

      sort_by-eq_of_permᴰ : {l m : List A} → Permᴰ l m → sort_by less l ≡ sort_by less m
      unfolding sort_by
      sort_by-eq_of_permᴰ Permᴰ.nil = refl
      sort_by-eq_of_permᴰ (Permᴰ.cons e p) = cc (sort_by-eq_of_permᴰ p)
      sort_by-eq_of_permᴰ (Permᴰ.swap {a = a} {b = b} {l = l} e f) =
          cc (insert_by-insert_by a b (sort_by less l))
      sort_by-eq_of_permᴰ (Permᴰ.trans p q) = sort_by-eq_of_permᴰ p ∙ sort_by-eq_of_permᴰ q

      -- The sorted list depends on the elements alone, not on the order in which they came.
      pub sort_by-eq_of_perm :
          IsSet (List A) → {l m : List A} → Perm l m → sort_by less l ≡ sort_by less m
      sort_by-eq_of_perm set p = ∥∥₁_elim p (set _ _) sort_by-eq_of_permᴰ
