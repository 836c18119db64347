-- ===== src/Index/Sort.antt =====
-- The order of entries in server/index_v2.c (`memcmp`), and lists that it sorts.
use mathlib.Core.Option.{none-ne-some, some-injective}
use dataman.Base.{
  subst, ℕ, zero, suc, ◌<◌, ◌≡◌, ◌≢◌, refl, ap, sym, ◌∙◌, true, false, inl, inr, Option, none, some,
  List, [], ◌∷◌, ◌++◌, arith, if◌then◌else◌, length, take, drop, get_or, All, Bool-cases,
  Option-cases,
}
use dataman.Storage.{Bytes}
use dataman.Undo.Names.{same_name}
use dataman.Index.Order.{before, leaf_position}
use dataman.Index.Insert.{put_entry}

before_irrefl : (a : Bytes) → before a a ≡ false
before_irrefl [] = refl
before_irrefl (x ∷ a) = ground (arith, before_irrefl a)

pub before_trans : (a b c : Bytes) → before a b ≡ true → before b c ≡ true → before a c ≡ true
before_trans [] [] c h k = k
before_trans [] (y ∷ b) (z ∷ c) h k = refl
before_trans [] (y ∷ b) [] h k = k
before_trans (x ∷ a) [] c h k = ground arith
before_trans (x ∷ a) (y ∷ b) [] h k = k
before_trans (x ∷ a) (y ∷ b) (z ∷ c) h k = ground (arith, before_trans a b c)

pub before_asym : (a b : Bytes) → before a b ≡ true → before b a ≡ false
before_asym a b h = elim (Bool-cases (before b a)) [
  | inl is ↦ absurd (true_ne_false (sym (before_trans a b a h is) ∙ before_irrefl a))
  | inr isnt ↦ isnt
]
  where
    true_ne_false : true ≡ false → ⊥
    true_ne_false h = ground arith

-- What is before a bound is before all that is not before the bound.
pub before_bound : (a b c : Bytes) → before a b ≡ true → before c b ≡ false → before a c ≡ true
before_bound [] (y ∷ b) (z ∷ c) h k = refl
before_bound [] [] c h k = ground arith
before_bound [] (y ∷ b) [] h k = ground arith
before_bound (x ∷ a) [] c h k = ground arith
before_bound (x ∷ a) (y ∷ b) [] h k = ground arith
before_bound (x ∷ a) (y ∷ b) (z ∷ c) h k = ground (arith, before_bound a b c)

-- Of two different entries one is before the other.
pub before_total : (a b : Bytes) → same_name a b ≡ false → before a b ≡ false → before b a ≡ true
before_total [] [] h k = ground arith
before_total [] (y ∷ b) h k = ground arith
before_total (x ∷ a) [] h k = refl
before_total (x ∷ a) (y ∷ b) h k = ground (arith, before_total a b)

-- Every entry is before the bound, or none is.
abbrev pub AllBelow : Bytes → List Bytes → Type 0
AllBelow bound entries = All (λ (x : Bytes). before x bound ≡ true) entries

abbrev pub NoneBelow : Bytes → List Bytes → Type 0
NoneBelow bound entries = All (λ (x : Bytes). before x bound ≡ false) entries

-- Strictly ascending.
abbrev pub Ascending : List Bytes → Type 0
Ascending [] = Unit
Ascending (x ∷ entries) = All (λ (y : Bytes). before x y ≡ true) entries × Ascending entries

-- The list with one more entry, at its place.
abbrev pub insert_sorted : Bytes → List Bytes → List Bytes
insert_sorted entry [] = entry ∷ []
insert_sorted entry (x ∷ entries) =
    let rest = insert_sorted entry entries in
    if before entry x then entry ∷ x ∷ entries else x ∷ rest

abbrev pub head? : List Bytes → Option Bytes
head? [] = none
head? (x ∷ entries) = some x

module _ (P : Bytes → Type 0) where
  pub All-append : (xs ys : List Bytes) → All P xs → All P ys → All P (xs ++ ys)
  All-append [] ys a b = b
  All-append (x ∷ xs) ys a b = (a.0, All-append xs ys a.1 b)

  pub All-append_left : (xs ys : List Bytes) → All P (xs ++ ys) → All P xs
  All-append_left [] ys a = tt
  All-append_left (x ∷ xs) ys a = (a.0, All-append_left xs ys a.1)

  pub All-append_right : (xs ys : List Bytes) → All P (xs ++ ys) → All P ys
  All-append_right [] ys a = a
  All-append_right (x ∷ xs) ys a = All-append_right xs ys a.1

  pub All-imp :
      {Q : Bytes → Type 0} (xs : List Bytes) → ((x : Bytes) → P x → Q x) → All P xs → All Q xs
  All-imp [] f a = tt
  All-imp (x ∷ xs) f a = (f x a.0, All-imp xs f a.1)

  pub All-take : (n : ℕ) (xs : List Bytes) → All P xs → All P (take n xs)
  All-take zero xs a = tt
  All-take (suc n) [] a = tt
  All-take (suc n) (x ∷ xs) a = (a.0, All-take n xs a.1)

  pub All-drop : (n : ℕ) (xs : List Bytes) → All P xs → All P (drop n xs)
  All-drop zero xs a = a
  All-drop (suc n) [] a = tt
  All-drop (suc n) (x ∷ xs) a = All-drop n xs a.1

  pub All-head? : (xs : List Bytes) (s : Bytes) → head? xs ≡ some s → All P xs → P s
  All-head? (x ∷ xs) s h a = subst P (some-injective x s h) a.0
  All-head? [] s h a = absurd (none-ne-some _ h)

  pub All-insert_sorted :
      (entry : Bytes) (xs : List Bytes) → P entry → All P xs → All P (insert_sorted entry xs)
  All-insert_sorted entry [] p a = (p, tt)
  All-insert_sorted entry (x ∷ xs) p a = elim (Bool-cases (before entry x)) [
    | inl is ↦ rw is (p, a)
    | inr isnt ↦ rw isnt (a.0, All-insert_sorted entry xs p a.1)
  ]

pub insert_sorted-Ascending :
    (entry : Bytes) (xs : List Bytes)
    → Ascending xs
    → leaf_position entry xs ≢ none
    → Ascending (insert_sorted entry xs)
unfolding leaf_position
insert_sorted-Ascending entry [] a h = (tt, tt)
insert_sorted-Ascending entry (x ∷ xs) a h = elim (Bool-cases (same_name entry x)) [
  | inl same ↦ absurd (h (rw (leaf_position, same) refl))
  | inr other ↦ elim (Bool-cases (before entry x)) [
    | inl is ↦ rw is ((is, All-imp _ xs (λ y k. before_trans entry x y is k) a.0), a)
    | inr isnt ↦ rw isnt (
      All-insert_sorted (λ (y : Bytes). before x y ≡ true) entry xs
          (before_total entry x other isnt) a.0,
      insert_sorted-Ascending entry xs a.1
          (λ none_there. h (rw (leaf_position, other, isnt, none_there) refl)),
    )
  ]
]

-- The leaf's loop finds the place where the entry belongs.
pub put_entry-insert_sorted :
    (entry : Bytes) (xs : List Bytes) (p : ℕ)
    → leaf_position entry xs ≡ some p
    → put_entry p entry xs ≡ insert_sorted entry xs
unfolding leaf_position
put_entry-insert_sorted entry [] p h =
    subst (λ (k : ℕ). put_entry k entry [] ≡ entry ∷ []) (some-injective 0 p h) refl
put_entry-insert_sorted entry (x ∷ xs) p h = elim (Bool-cases (same_name entry x)) [
  | inl same ↦
      let found : leaf_position entry (x ∷ xs) ≡ none = rw (leaf_position, same) refl in
      absurd (none-ne-some p (sym found ∙ h))
  | inr other ↦ elim (Bool-cases (before entry x)) [
    | inl is ↦
        let found : leaf_position entry (x ∷ xs) ≡ some 0 = rw (leaf_position, other, is) refl in
        rw (sym (some-injective 0 p (sym found ∙ h)), is) refl
    | inr isnt ↦ elim (Option-cases (leaf_position entry xs)) [
      | inl none_there ↦
          let found : leaf_position entry (x ∷ xs) ≡ none =
            rw (leaf_position, other, isnt, none_there) refl in
          absurd (none-ne-some p (sym found ∙ h))
      | inr (q, there) ↦
          let found : leaf_position entry (x ∷ xs) ≡ some (suc q) =
            rw (leaf_position, other, isnt, there) refl in
          rw (sym (some-injective (suc q) p (sym found ∙ h)), isnt)
            (ap (◌∷◌ x) (put_entry-insert_sorted entry xs q there))
    ]
  ]
]

-- An entry goes past what is not after it, and not into what it is before.
pub insert_sorted-skip :
    (entry : Bytes) (xs ys : List Bytes)
    → All (λ (x : Bytes). before entry x ≡ false) xs
    → insert_sorted entry (xs ++ ys) ≡ xs ++ insert_sorted entry ys
insert_sorted-skip entry [] ys a = refl
insert_sorted-skip entry (x ∷ xs) ys a = rw a.0 (ap (◌∷◌ x) (insert_sorted-skip entry xs ys a.1))

pub insert_sorted-stay :
    (entry : Bytes) (xs ys : List Bytes)
    → All (λ (y : Bytes). before entry y ≡ true) ys
    → insert_sorted entry (xs ++ ys) ≡ insert_sorted entry xs ++ ys
insert_sorted-stay entry [] [] a = refl
insert_sorted-stay entry [] (y ∷ ys) a = rw a.0 refl
insert_sorted-stay entry (x ∷ xs) ys a = elim (Bool-cases (before entry x)) [
  | inl is ↦ rw is refl
  | inr isnt ↦ rw isnt (ap (◌∷◌ x) (insert_sorted-stay entry xs ys a))
]

pub length-insert_sorted :
    (entry : Bytes) (xs : List Bytes) → length (insert_sorted entry xs) ≡ suc (length xs)
length-insert_sorted entry [] = refl
length-insert_sorted entry (x ∷ xs) = elim (Bool-cases (before entry x)) [
  | inl is ↦ rw is refl
  | inr isnt ↦ rw isnt (ap suc (length-insert_sorted entry xs))
]

-- The head stays where the entry is not before it.
pub head?-insert_sorted :
    (entry s : Bytes) (xs : List Bytes)
    → head? xs ≡ some s
    → before entry s ≡ false
    → head? (insert_sorted entry xs) ≡ some s
head?-insert_sorted entry s [] h k = absurd (none-ne-some _ h)
head?-insert_sorted entry s (x ∷ xs) h k =
    let isnt : before entry x ≡ false =
      subst (λ (y : Bytes). before entry y ≡ false) (sym (some-injective x s h)) k in
    rw isnt h

-- A list in order, cut at a place: all before the entry there on one side, none on the other.
pub Ascending-cut :
    (n : ℕ) (xs : List Bytes)
    → Ascending xs
    → n < length xs
    → AllBelow (get_or xs n []) (take n xs)
      × NoneBelow (get_or xs n []) (drop n xs)
      × (head? (drop n xs) ≡ some (get_or xs n []))
      × Ascending (take n xs)
      × Ascending (drop n xs)
Ascending-cut n [] a h = absurd (omega arith)
Ascending-cut zero (x ∷ xs) a h =
    (tt, (before_irrefl x, All-imp _ xs (λ y k. before_asym x y k) a.0), refl, tt, a)
Ascending-cut (suc n) (x ∷ xs) a h =
    let (below, none_below, first, left, right) = Ascending-cut n xs a.1 (omega arith) in
    (
      (All-head? _ (drop n xs) _ first (All-drop _ n xs a.0), below),
      none_below,
      first,
      (All-take _ n xs a.0, left),
      right,
    )
