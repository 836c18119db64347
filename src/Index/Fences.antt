-- ===== src/Index/Fences.antt =====
-- Inner nodes of the tree in server/index_v2.c: the separators, and the entries below each child.
use mathlib.Core.Option.{none-ne-some}
use dataman.Base.{
  ℕ, zero, suc, ◌<◌, ◌≡◌, refl, ap, sym, ◌∙◌, subst, true, false, inl, inr, some, List, [], ◌∷◌,
  ◌++◌, append_assoc, append-nil, length-append, arith, length, take, drop, get_or, All, Bool-cases,
}
use dataman.Storage.{Bytes}
use dataman.Index.Order.{before, child_position}
use dataman.Index.Sort.{
  before_trans, before_asym, before_bound, AllBelow, NoneBelow, insert_sorted, head?, All-append,
  All-append_left, All-append_right, All-imp, All-head?, All-insert_sorted, insert_sorted-skip,
  insert_sorted-stay, length-insert_sorted, head?-insert_sorted,
}

abbrev pub concat : List (List Bytes) → List Bytes
concat [] = []
concat (es ∷ ess) = es ++ concat ess

-- No child is empty, and a separator is the first entry to its right: all on its left are before it.
abbrev pub Fenced : List Bytes → List (List Bytes) → Type 0
Fenced [] [] = ⊥
Fenced [] (es ∷ []) = 0 < length es
Fenced [] (es ∷ fs ∷ ess) = ⊥
Fenced (s ∷ seps) [] = ⊥
Fenced (s ∷ seps) (es ∷ ess) =
    (0 < length es)
    × AllBelow s es
    × NoneBelow s (concat ess)
    × (head? (concat ess) ≡ some s)
    × Fenced seps ess

pub concat-take :
    (n : ℕ) (ess : List (List Bytes)) → concat ess ≡ concat (take n ess) ++ concat (drop n ess)
concat-take zero ess = refl
concat-take (suc n) [] = refl
concat-take (suc n) (es ∷ ess) =
    ap (◌++◌ es) (concat-take n ess)
    ∙ sym (append_assoc es (concat (take n ess)) (concat (drop n ess)))

head?-append : (xs ys : List Bytes) → 0 < length xs → head? (xs ++ ys) ≡ head? xs
head?-append [] ys h = absurd (omega arith)
head?-append (x ∷ xs) ys h = refl

pub head?-some : (xs : List Bytes) (s : Bytes) → head? xs ≡ some s → 0 < length xs
head?-some [] s h = absurd (none-ne-some _ h)
head?-some (x ∷ xs) s h = omega arith

pub Fenced-nonempty :
    (seps : List Bytes) (ess : List (List Bytes)) → Fenced seps ess → 0 < length (concat ess)
Fenced-nonempty [] [] f = absurd f
Fenced-nonempty [] (es ∷ fs ∷ ess) f = absurd f
Fenced-nonempty (s ∷ seps) [] f = absurd f
Fenced-nonempty [] (es ∷ []) f = omega (arith, length-append es [], f)
Fenced-nonempty (s ∷ seps) (es ∷ ess) f = omega (arith, length-append es (concat ess), f.0)

not_below :
    (entry s : Bytes) (es : List Bytes)
    → before entry s ≡ false
    → AllBelow s es
    → All (λ (x : Bytes). before entry x ≡ false) es
not_below entry s es h below =
    All-imp _ es
      (λ x k. elim (Bool-cases (before entry x)) [
        | inl is ↦ absurd (true_ne_false (sym (before_trans entry x s is k) ∙ h))
        | inr isnt ↦ isnt
      ])
      below
  where
    true_ne_false : true ≡ false → ⊥
    true_ne_false h = ground arith

-- What became of the children to the right of a separator that the new entry is not before.
Fenced-cons :
    (entry s : Bytes) (es : List Bytes) (seps seps' : List Bytes) (ess ess' : List (List Bytes))
    → Fenced (s ∷ seps) (es ∷ ess)
    → before entry s ≡ false
    → Fenced seps' ess'
    → concat ess' ≡ insert_sorted entry (concat ess)
    → Fenced (s ∷ seps') (es ∷ ess')
      × (concat (es ∷ ess') ≡ insert_sorted entry (concat (es ∷ ess)))
Fenced-cons entry s es seps seps' ess ess' f h f' same = (
  (
    f.0,
    f.1,
    subst (NoneBelow s) (sym same) (All-insert_sorted _ entry (concat ess) h f.2),
    ap head? same ∙ head?-insert_sorted entry s (concat ess) f.3 h,
    f',
  ),
  ap (◌++◌ es) same ∙ sym (insert_sorted-skip entry es (concat ess) (not_below entry s es h f.1)),
)

above :
    (entry s : Bytes) (es : List Bytes)
    → before entry s ≡ true
    → NoneBelow s es
    → All (λ (y : Bytes). before entry y ≡ true) es
above entry s es h none_below = All-imp _ es (λ y k. before_bound entry s y h k) none_below

-- One child has the new entry.
pub Fenced-insert :
    (entry : Bytes) (seps : List Bytes) (ess : List (List Bytes))
    → Fenced seps ess
    → Fenced seps (
        take (child_position entry seps) ess
        ++ (insert_sorted entry (get_or ess (child_position entry seps) [])
            ∷ drop (suc (child_position entry seps)) ess))
      × (concat (
            take (child_position entry seps) ess
            ++ (insert_sorted entry (get_or ess (child_position entry seps) [])
                ∷ drop (suc (child_position entry seps)) ess))
          ≡ insert_sorted entry (concat ess))
unfolding child_position
Fenced-insert entry [] [] f = absurd f
Fenced-insert entry [] (es ∷ fs ∷ ess) f = absurd f
Fenced-insert entry (s ∷ seps) [] f = absurd f
Fenced-insert entry [] (es ∷ []) f =
    (omega (arith, length-insert_sorted entry es), sym (insert_sorted-stay entry es [] tt))
Fenced-insert entry (s ∷ seps) (es ∷ ess) f = elim (Bool-cases (before entry s)) [
  | inl is ↦
      rw (child_position, is)
        (
          (
            omega (arith, length-insert_sorted entry es),
            All-insert_sorted _ entry es is f.1,
            f.2,
            f.3,
            f.4,
          ),
          sym (insert_sorted-stay entry es (concat ess) (above entry s (concat ess) is f.2)),
        )
  | inr isnt ↦
      let (f', same) = Fenced-insert entry seps ess f.4 in
      rw (child_position, isnt) (Fenced-cons entry s es seps seps ess _ f isnt f' same)
]

-- A list in two halves with the separator between them.
pub record Halves (separator : Bytes) (left right : List Bytes) : Type 0 where
  pub some_left : 0 < length left
  pub below : AllBelow separator left
  pub none_below : NoneBelow separator right
  pub first : head? right ≡ some separator

-- One child has become two, with a separator between them.
pub Fenced-split :
    (entry : Bytes) (seps : List Bytes) (ess : List (List Bytes)) (sep : Bytes)
    (left right : List Bytes)
    → Fenced seps ess
    → insert_sorted entry (get_or ess (child_position entry seps) []) ≡ left ++ right
    → Halves sep left right
    → Fenced
        (take (child_position entry seps) seps ++ (sep ∷ drop (child_position entry seps) seps))
        (take (child_position entry seps) ess
          ++ (left ∷ right ∷ drop (suc (child_position entry seps)) ess))
      × (concat (
            take (child_position entry seps) ess
            ++ (left ∷ right ∷ drop (suc (child_position entry seps)) ess))
          ≡ insert_sorted entry (concat ess))
unfolding child_position
Fenced-split entry [] [] sep left right f e h = absurd f
Fenced-split entry [] (es ∷ fs ∷ ess) sep left right f e h = absurd f
Fenced-split entry (s ∷ seps) [] sep left right f e h = absurd f
Fenced-split entry [] (es ∷ []) sep left right f e h =
    let some_right = head?-some right sep h.first in
    let nil = append-nil right in
    (
      (
        h.some_left,
        h.below,
        subst (NoneBelow sep) (sym nil) h.none_below,
        ap head? nil ∙ h.first,
        some_right,
      ),
      sym (append_assoc left right [])
          ∙ ap (λ (xs : List Bytes). xs ++ []) (sym e)
          ∙ sym (insert_sorted-stay entry es [] tt),
    )
Fenced-split entry (s ∷ seps) (es ∷ ess) sep left right f e h = elim (Bool-cases (before entry s)) [
  | inl is ↦
      let here : child_position entry (s ∷ seps) ≡ 0 = rw (child_position, is) refl in
      rw (child_position, is)
        (let some_right = head?-some right sep h.first in
          let e' : insert_sorted entry es ≡ left ++ right =
            sym (ap (λ (k : ℕ). insert_sorted entry (get_or (es ∷ ess) k [])) here) ∙ e in
          let all_below : AllBelow s (left ++ right) =
            subst (AllBelow s) e' (All-insert_sorted _ entry es is f.1) in
          let right_below = All-append_right _ left right all_below in
          let sep_below : before sep s ≡ true = All-head? _ right sep h.first right_below in
          (
            (
              h.some_left,
              h.below,
              All-append _ right (concat ess) h.none_below (
                  All-imp _ (concat ess)
                    (λ y k. before_asym sep y (before_bound sep s y sep_below k)) f.2),
              head?-append right (concat ess) some_right ∙ h.first,
              (some_right, right_below, f.2, f.3, f.4),
            ),
            sym (append_assoc left right (concat ess))
                ∙ ap (λ (xs : List Bytes). xs ++ concat ess) (sym e')
                ∙ sym
                    (insert_sorted-stay entry es (concat ess) (above entry s (concat ess) is f.2)),
          ))
  | inr isnt ↦
      let there : child_position entry (s ∷ seps) ≡ suc (child_position entry seps) =
        rw (child_position, isnt) refl in
      let e' = sym (ap (λ (k : ℕ). insert_sorted entry (get_or (es ∷ ess) k [])) there) ∙ e in
      let (f', same) = Fenced-split entry seps ess sep left right f.4 e' h in
      rw (child_position, isnt) (Fenced-cons entry s es seps _ ess _ f isnt f' same)
]

-- An inner node in two, the separator between the halves left out.
pub Fenced-cut :
    (n : ℕ) (seps : List Bytes) (ess : List (List Bytes))
    → Fenced seps ess
    → n < length seps
    → Fenced (take n seps) (take (suc n) ess)
      × Fenced (drop (suc n) seps) (drop (suc n) ess)
      × Halves (get_or seps n []) (concat (take (suc n) ess)) (concat (drop (suc n) ess))
Fenced-cut n [] ess f h = absurd (omega arith)
Fenced-cut n (s ∷ seps) [] f h = absurd f
Fenced-cut zero (s ∷ seps) (es ∷ ess) f h =
    let nil = append-nil es in
    (
      f.0,
      f.4,
      record {
        some_left = omega (arith, ap length nil, f.0);
        below = subst (AllBelow s) (sym nil) f.1;
        none_below = f.2;
        first = f.3;
      },
    )
Fenced-cut (suc n) (s ∷ seps) (es ∷ ess) f h =
    let (left, right, halves) = Fenced-cut n seps ess f.4 (omega arith) in
    let some_left = halves.some_left in
    let parts = concat-take (suc n) ess in
    let none_below = subst (NoneBelow s) parts f.2 in
    let first : head? (concat (take (suc n) ess)) ≡ some s =
      sym (head?-append (concat (take (suc n) ess)) _ some_left) ∙ ap head? (sym parts) ∙ f.3 in
    let after : before (get_or seps n []) s ≡ false =
      All-head? _ _ _ halves.first (All-append_right _ (concat (take (suc n) ess)) _ none_below) in
    (
      (f.0, f.1, All-append_left _ (concat (take (suc n) ess)) _ none_below, first, left),
      right,
      record {
        some_left = omega (arith, length-append es (concat (take (suc n) ess)));
        below =
            All-append _ es _
              (All-imp _ es (λ x k. before_bound x s (get_or seps n []) k after) f.1) halves.below;
        none_below = halves.none_below;
        first = halves.first;
      },
    )
