-- ===== src/Index/Forest.antt =====
-- The children of an inner node of server/index_v2.c, in part and in a row.
use dataman.Base.{
  ℕ, zero, suc, ◌<◌, ◌≡◌, refl, ap, List, [], ◌∷◌, ◌++◌, arith, length, take, drop, get_or,
}
use dataman.Storage.{Bytes}
use dataman.Index.Fences.{Fenced}
use dataman.Index.Tree.{Forest}

module _ (R : ℕ → List Bytes → Type 0) where
  pub Forest-take :
      (n : ℕ) (os : List ℕ) (ess : List (List Bytes))
      → Forest R os ess
      → Forest R (take n os) (take n ess)
  Forest-take zero os ess f = tt
  Forest-take (suc n) [] [] f = tt
  Forest-take (suc n) [] (es ∷ ess) f = absurd f
  Forest-take (suc n) (o ∷ os) [] f = absurd f
  Forest-take (suc n) (o ∷ os) (es ∷ ess) f = (f.0, Forest-take n os ess f.1)

  pub Forest-drop :
      (n : ℕ) (os : List ℕ) (ess : List (List Bytes))
      → Forest R os ess
      → Forest R (drop n os) (drop n ess)
  Forest-drop zero os ess f = f
  Forest-drop (suc n) [] [] f = tt
  Forest-drop (suc n) [] (es ∷ ess) f = absurd f
  Forest-drop (suc n) (o ∷ os) [] f = absurd f
  Forest-drop (suc n) (o ∷ os) (es ∷ ess) f = Forest-drop n os ess f.1

  pub Forest-append :
      (os : List ℕ) (ess : List (List Bytes)) (os' : List ℕ) (ess' : List (List Bytes))
      → Forest R os ess
      → Forest R os' ess'
      → Forest R (os ++ os') (ess ++ ess')
  Forest-append [] [] os' ess' f g = g
  Forest-append [] (es ∷ ess) os' ess' f g = absurd f
  Forest-append (o ∷ os) [] os' ess' f g = absurd f
  Forest-append (o ∷ os) (es ∷ ess) os' ess' f g = (f.0, Forest-append os ess os' ess' f.1 g)

  pub Forest-get :
      (n : ℕ) (os : List ℕ) (ess : List (List Bytes))
      → Forest R os ess
      → n < length os
      → R (get_or os n 0) (get_or ess n [])
  Forest-get n [] ess f h = absurd (omega arith)
  Forest-get n (o ∷ os) [] f h = absurd f
  Forest-get zero (o ∷ os) (es ∷ ess) f h = f.0
  Forest-get (suc n) (o ∷ os) (es ∷ ess) f h = Forest-get n os ess f.1 (omega arith)

  pub Forest-length :
      (os : List ℕ) (ess : List (List Bytes)) → Forest R os ess → length os ≡ length ess
  Forest-length [] [] f = refl
  Forest-length [] (es ∷ ess) f = absurd f
  Forest-length (o ∷ os) [] f = absurd f
  Forest-length (o ∷ os) (es ∷ ess) f = ap suc (Forest-length os ess f.1)

pub Fenced-length :
    (seps : List Bytes) (ess : List (List Bytes)) → Fenced seps ess → length ess ≡ suc (length seps)
Fenced-length [] [] f = absurd f
Fenced-length [] (es ∷ []) f = refl
Fenced-length [] (es ∷ fs ∷ ess) f = absurd f
Fenced-length (s ∷ seps) [] f = absurd f
Fenced-length (s ∷ seps) (es ∷ ess) f = ap suc (Fenced-length seps ess f.4)
