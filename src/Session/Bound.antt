-- ===== src/Session/Bound.antt =====
-- The names that `bind_owner` of server/transaction_dispatch.c binds lie below the root.
use dataman.Base.{
  ℕ, ◌≡◌, ◌≢◌, refl, ap, sym, ◌∙◌, Bool, true, false, not, ◌||◌, none, some, List, [], ◌∷◌, ◌++◌,
  ◌==◌, ==_iff, length, drop, if◌then◌else◌, arith, Bool-cases, Option-cases, inl, inr, All,
}
use dataman.Storage.{Bytes}
use dataman.Undo.Names.{starts_with, parts, has_byte}
use dataman.Session.{Target}
use dataman.Session.Dispatch.{behind_root, relative_of, plain_part, plain_parts, bind_file}

starts_with-split :
    (prefix path : Bytes)
    → starts_with prefix path ≡ true
    → path ≡ prefix ++ drop (length prefix) path
starts_with-split [] path h = refl
starts_with-split (p ∷ prefix) [] h = cc
starts_with-split (p ∷ prefix) (c ∷ path) h =
    let same : p ≡ c = ground arith in
    let rest : starts_with prefix path ≡ true = ground arith in
    ap (λ (b : ℕ). b ∷ path) (sym same) ∙ ap (◌∷◌ p) (starts_with-split prefix path rest)

behind_root_lem :
    (root rest name : Bytes)
    → (length root == 1) ≡ false
    → behind_root root rest ≡ some name
    → rest ≡ b'/' ∷ name
behind_root_lem root [] name h e = ground arith
behind_root_lem root (c ∷ rest) name h e = ground arith

relative_of_lem :
    (root path name : Bytes)
    → relative_of root path ≡ some name
    → (starts_with root path ≡ true) × (behind_root root (drop (length root) path) ≡ some name)
unfolding relative_of
relative_of_lem root path name h =
    elim (Bool-cases (not (starts_with (b'/' ∷ []) path) || not (starts_with root path))) [
      | inl bad ↦ absurd (none-ne-some name (sym (refused bad) ∙ h))
      | inr good ↦
          (inside (starts_with (b'/' ∷ []) path) (starts_with root path) good, sym (taken good) ∙ h)
    ]
  where
    none-ne-some : (name : Bytes) → none ≡ some name → ⊥
    none-ne-some name e = cc

    inside : (a b : Bool) → (not a || not b) ≡ false → b ≡ true
    inside a b e = ground arith

    refused :
        (not (starts_with (b'/' ∷ []) path) || not (starts_with root path)) ≡ true
        → relative_of root path ≡ none
    refused bad = rw (relative_of, bad) refl

    taken :
        (not (starts_with (b'/' ∷ []) path) || not (starts_with root path)) ≡ false
        → relative_of root path ≡ behind_root root (drop (length root) path)
    taken good = rw (relative_of, good) refl

-- The bytes of a part of a path: some, none of them a slash, and neither "." nor "..".
abbrev pub IsPlain : Bytes → Type 0
IsPlain part =
    (has_byte b'/' part ≡ false) × (part ≢ []) × (part ≢ b'.' ∷ []) × (part ≢ b'.' ∷ b'.' ∷ [])

-- The parts with a slash between each two.
abbrev pub joined : List Bytes → Bytes
joined [] = []
joined (part ∷ []) = part
joined (part ∷ next ∷ rest) = part ++ (b'/' ∷ joined (next ∷ rest))

pub joined-parts : (name : Bytes) → joined (parts name) ≡ name
unfolding parts
joined-parts [] = refl
joined-parts (c ∷ name) = step (parts name) ∙ ap (◌∷◌ c) (joined-parts name)
  where
    with_slash :
        (part : Bytes) (rest : List Bytes)
        → joined (if c == b'/' then [] ∷ part ∷ rest else (c ∷ part) ∷ rest)
          ≡ c ∷ joined (part ∷ rest)
    with_slash part rest = elim (Bool-cases (c == b'/')) [
      | inl slash ↦
          rw slash (ap (λ (b : ℕ). b ∷ joined (part ∷ rest)) (sym ((==_iff c b'/').0 slash)))
      | inr other ↦ rw other (within rest)
    ]
      where
        within : (rest : List Bytes) → joined ((c ∷ part) ∷ rest) ≡ c ∷ joined (part ∷ rest)
        within [] = refl
        within (next ∷ rest) = refl

    step :
        (ps : List Bytes)
        → joined (elim ps [
          | [] ↦ (c ∷ []) ∷ []
          | part ∷ rest ↦ if c == b'/' then [] ∷ part ∷ rest else (c ∷ part) ∷ rest
        ])
          ≡ c ∷ joined ps
    step [] = refl
    step (part ∷ rest) = with_slash part rest

abbrev IsSlashless : Bytes → Type 0
IsSlashless part = has_byte b'/' part ≡ false

parts-not_empty : (name : Bytes) → parts name ≢ []
unfolding parts
parts-not_empty [] = λ e. cc
parts-not_empty (c ∷ name) = step (parts name)
  where
    step :
        (ps : List Bytes)
        → (elim ps [
          | [] ↦ (c ∷ []) ∷ []
          | part ∷ rest ↦ if c == b'/' then [] ∷ part ∷ rest else (c ∷ part) ∷ rest
        ])
          ≢ []
    step [] = λ e. cc
    step (part ∷ rest) = elim (Bool-cases (c == b'/')) [
      | inl slash ↦ rw slash (λ e. cc)
      | inr other ↦ rw other (λ e. cc)
    ]

parts-All : (name : Bytes) → All IsSlashless (parts name)
unfolding parts
parts-All [] = (refl, tt)
parts-All (c ∷ name) = step (parts name) (parts-not_empty name) (parts-All name)
  where
    longer : (part : Bytes) → IsSlashless part → (c == b'/') ≡ false → IsSlashless (c ∷ part)
    longer part h other = ground arith

    step :
        (ps : List Bytes)
        → ps ≢ []
        → All IsSlashless ps
        → All IsSlashless (elim ps [
          | [] ↦ (c ∷ []) ∷ []
          | part ∷ rest ↦ if c == b'/' then [] ∷ part ∷ rest else (c ∷ part) ∷ rest
        ])
    step [] some_part all = absurd (some_part refl)
    step (part ∷ rest) some_part all = elim (Bool-cases (c == b'/')) [
      | inl slash ↦ rw slash (refl, all)
      | inr other ↦ rw other (longer part all.0 other, all.1)
    ]

plain_part-IsPlain : (part : Bytes) → IsSlashless part → plain_part part ≡ true → IsPlain part
unfolding plain_part
plain_part-IsPlain [] s h = cc
plain_part-IsPlain (a ∷ []) s h = (s, λ e. cc, one_dot, λ e. cc)
  where
    one_dot : a ∷ [] ≢ b'.' ∷ []
    one_dot e = let same : a ≡ b'.' = cc in ground arith
plain_part-IsPlain (a ∷ b ∷ []) s h = (s, λ e. cc, λ e. cc, two_dots)
  where
    two_dots : a ∷ b ∷ [] ≢ b'.' ∷ b'.' ∷ []
    two_dots e = let first : a ≡ b'.' = cc in let second : b ≡ b'.' = cc in ground arith
plain_part-IsPlain (a ∷ b ∷ c ∷ part) s h = (s, λ e. cc, λ e. cc, λ e. cc)

plain_parts-All : (ps : List Bytes) → All IsSlashless ps → plain_parts ps ≡ true → All IsPlain ps
unfolding plain_parts
plain_parts-All [] all h = tt
plain_parts-All (part ∷ rest) all h =
    let first : plain_part part ≡ true = ground arith in
    let others : plain_parts rest ≡ true = ground arith in
    (plain_part-IsPlain part all.0 first, plain_parts-All rest all.1 others)

-- A file that `bind_owner` accepts below a root other than "/": the path is the root, a slash, and the
-- name that is bound, the descriptor is the same, and the name is parts with a slash between each two,
-- none of which is empty, "." or "..".
pub bind_file_lem :
    (root : Bytes) (file target : Target)
    → (length root == 1) ≡ false
    → bind_file root file ≡ some target
    → (file.path ≡ root ++ (b'/' ∷ target.path))
      × (target.fd ≡ file.fd)
      × (joined (parts target.path) ≡ target.path)
      × All IsPlain (parts target.path)
unfolding bind_file
bind_file_lem root file target many h = elim (Option-cases (relative_of root file.path)) [
  | inl nothing ↦ absurd (none-ne-some (sym (lost nothing) ∙ h))
  | inr (name, there) ↦ elim (Bool-cases (plain_parts (parts name))) [
    | inr bad ↦ absurd (none-ne-some (sym (refused name there bad) ∙ h))
    | inl plain ↦
        (let same : record { fd = file.fd; path = name } ≡ target =
            some_inj (sym (bound name there plain) ∙ h) in
          let r = relative_of_lem root file.path name there in
          let path : name ≡ target.path = ap (λ (x : Target). x.path) same in
          (
            starts_with-split root file.path r.0
                ∙ ap (λ (xs : Bytes). root ++ xs)
                    (behind_root_lem root (drop (length root) file.path) name many r.1
                      ∙ ap (λ (xs : Bytes). b'/' ∷ xs) path),
            sym (ap (λ (x : Target). x.fd) same),
            joined-parts target.path,
            plain_parts-All (parts target.path) (parts-All target.path)
                (sym (ap (λ (xs : Bytes). plain_parts (parts xs)) path) ∙ plain),
          ))
  ]
]
  where
    none-ne-some : none ≡ some target → ⊥
    none-ne-some e = cc

    some_inj : {a b : Target} → some a ≡ some b → a ≡ b
    some_inj e = cc

    lost : relative_of root file.path ≡ none → bind_file root file ≡ none
    lost nothing = rw (bind_file, nothing) refl

    refused :
        (name : Bytes)
        → relative_of root file.path ≡ some name
        → plain_parts (parts name) ≡ false
        → bind_file root file ≡ none
    refused name there bad = rw (bind_file, there, bad) refl

    bound :
        (name : Bytes)
        → relative_of root file.path ≡ some name
        → plain_parts (parts name) ≡ true
        → bind_file root file ≡ some (record { fd = file.fd; path = name })
    bound name there plain = rw (bind_file, there, plain) refl
