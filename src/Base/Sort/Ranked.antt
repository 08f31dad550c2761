-- ===== src/Base/Sort/Ranked.antt =====
-- A sort under a `less` that is an order on some elements alone, such as the numbers among `float64`.
use mathlib.Core.List.{List, [], ◌∷◌}
use telemetry_one_backend.Base.Tests.{Bool-cases}
use mathlib.Core.Path.{◌≡◌}
use mathlib.Core.Bool.{Bool, true, false}
use mathlib.Core.Logic.{inl, inr}
use telemetry_one_backend.Base.Lists.{All, All-imp}
use telemetry_one_backend.Base.Sort.{insert_by, sort_by}
use telemetry_one_backend.Base.Sort.Laws.{All-insert_by, All-sort_by}

-- `R x y` says that `x` may stand before `y`, for elements with `P`.
pub record IsRank {ℓ} {A : Type ℓ} (less : A → A → Bool) (P : A → Type 0) (R : A → A → Type 0)
    : Type ℓ where
  pub less-R : (x y : A) → P x → P y → less x y ≡ true → R x y
  pub not_less-R : (x y : A) → P x → P y → less x y ≡ false → R y x
  pub trans : (x y z : A) → R x y → R y z → R x z

abbrev pub Ranked {ℓ} : {A : Type ℓ} → (A → A → Type 0) → List A → Type 0
Ranked R [] = Unit
Ranked R (x ∷ xs) = All (R x) xs × Ranked R xs

module _ {ℓ} {A : Type ℓ} (less : A → A → Bool) where
  module _ (P : A → Type 0) (R : A → A → Type 0) (rank : IsRank less P R) where
    insert_by-Ranked :
        (x : A) (l : List A) → P x → All P l → Ranked R l → Ranked R (insert_by less x l)
    unfolding insert_by
    insert_by-Ranked x [] p a s = (tt, tt)
    insert_by-Ranked x (y ∷ ys) p (q, a) s = elim (Bool-cases (less y x)) [
      | inl h ↦
          rw h (
            All-insert_by less (R y) x ys (rank.less-R y x q p h) s.0,
            insert_by-Ranked x ys p a s.1,
          )
      | inr h ↦
          let first : R x y = rank.not_less-R y x q p h in
          rw h ((first, All-imp (R y) (R x) ys (λ z r. rank.trans x y z first r) s.0), s)
    ]

    pub sort_by-Ranked : (l : List A) → All P l → Ranked R (sort_by less l)
    unfolding sort_by
    sort_by-Ranked [] a = tt
    sort_by-Ranked (x ∷ xs) (p, a) =
        insert_by-Ranked x (sort_by less xs) p (All-sort_by less P xs a) (sort_by-Ranked xs a)

  All-of_insert_by :
      (Q : A → Type 0) (x : A) (l : List A) → All Q (insert_by less x l) → Q x × All Q l
  unfolding insert_by
  All-of_insert_by Q x [] h = (h.0, tt)
  All-of_insert_by Q x (y ∷ ys) h = elim (Bool-cases (less y x)) [
    | inl e ↦
        let a : All Q (y ∷ insert_by less x ys) = rw e at h in
        let (q, qs) = All-of_insert_by Q x ys a.1 in (q, (a.0, qs))
    | inr e ↦ let a : All Q (x ∷ y ∷ ys) = rw e at h in (a.0, a.1)
  ]

  -- What holds of all elements of the sorted list holds of all elements.
  pub All-of_sort_by : (Q : A → Type 0) (l : List A) → All Q (sort_by less l) → All Q l
  unfolding sort_by
  All-of_sort_by Q [] h = tt
  All-of_sort_by Q (x ∷ xs) h =
      let (q, qs) = All-of_insert_by Q x (sort_by less xs) h in (q, All-of_sort_by Q xs qs)
