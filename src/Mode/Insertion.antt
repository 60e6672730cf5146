-- ===== src/Mode/Insertion.antt =====
-- A sort that does what is asked of `qsort`: insertion sort.
use chgres.Base.{◌≡◌, refl, inl, inr, false, List, [], ◌∷◌, if◌then◌else◌, Bool-cases}
use mathlib.Core.List.{Permᴰ}
use mathlib.Core.List.Permᴰ
use chgres.Base.Int.{ℤ}
use chgres.Mode.Order.{IsWeakOrder}
use chgres.Mode.Sort.{less, NotBefore, IsSorted, Qsort}

unfoldable pub insert : {A : Type 0} → (A → A → ℤ) → A → List A → List A
insert cmp a [] = a ∷ []
insert cmp a (b ∷ bs) = let rest = insert cmp a bs in if less cmp b a then b ∷ rest else a ∷ b ∷ bs

unfoldable pub insertion_sort : {A : Type 0} → (A → A → ℤ) → List A → List A
unfolding insert
insertion_sort cmp [] = []
insertion_sort cmp (a ∷ as') = insert cmp a (insertion_sort cmp as')

insert-perm :
    {A : Type 0} (cmp : A → A → ℤ) (a : A) (bs : List A) → Permᴰ (insert cmp a bs) (a ∷ bs)
unfolding insert
insert-perm cmp a [] = Permᴰ.refl (a ∷ [])
insert-perm cmp a (b ∷ bs) = elim (Bool-cases (less cmp b a)) [
  | inl e ↦ rw e (Permᴰ.trans (Permᴰ.cons refl (insert-perm cmp a bs)) (Permᴰ.swap refl refl))
  | inr e ↦ rw e (Permᴰ.refl (a ∷ b ∷ bs))
]

pub sort-perm : {A : Type 0} (cmp : A → A → ℤ) (as' : List A) → Permᴰ (insertion_sort cmp as') as'
unfolding insertion_sort
sort-perm cmp [] = Permᴰ.refl []
sort-perm cmp (a ∷ as') =
    Permᴰ.trans (insert-perm cmp a (insertion_sort cmp as')) (Permᴰ.cons refl (sort-perm cmp as'))

module _ {A : Type 0} (cmp : A → A → ℤ) (w : IsWeakOrder (less cmp)) where
  NotBefore-trans :
      (a b : A) (cs : List A)
      → less cmp b a ≡ false
      → NotBefore (less cmp) b cs
      → NotBefore (less cmp) a cs
  NotBefore-trans a b [] h n = tt
  NotBefore-trans a b (c ∷ cs) h n = (w.not_trans c b a n.0 h, NotBefore-trans a b cs h n.1)

  insert-NotBefore :
      (b a : A) (cs : List A)
      → less cmp a b ≡ false
      → NotBefore (less cmp) b cs
      → NotBefore (less cmp) b (insert cmp a cs)
  unfolding insert
  insert-NotBefore b a [] h n = (h, tt)
  insert-NotBefore b a (c ∷ cs) h n = elim (Bool-cases (less cmp c a)) [
    | inl e ↦ rw e (n.0, insert-NotBefore b a cs h n.1)
    | inr e ↦ rw e (h, n)
  ]

  insert-IsSorted :
      (a : A) (bs : List A) → IsSorted (less cmp) bs → IsSorted (less cmp) (insert cmp a bs)
  unfolding insert
  insert-IsSorted a [] s = (tt, tt)
  insert-IsSorted a (b ∷ bs) s = elim (Bool-cases (less cmp b a)) [
    | inl e ↦ rw e (insert-NotBefore b a bs (w.asym b a e) s.0, insert-IsSorted a bs s.1)
    | inr e ↦ rw e ((e, NotBefore-trans a b bs e s.0), s)
  ]

  pub sort-IsSorted : (as' : List A) → IsSorted (less cmp) (insertion_sort cmp as')
  unfolding insertion_sort
  sort-IsSorted [] = tt
  sort-IsSorted (a ∷ as') = insert-IsSorted a (insertion_sort cmp as') (sort-IsSorted as')

abbrev pub by_insertion : {A : Type 0} → Qsort A
by_insertion = record {
  sort = insertion_sort;
  permutes = λ cmp rs w d. sort-perm cmp rs;
  sorts = λ cmp rs w d. sort-IsSorted cmp w rs;
}
