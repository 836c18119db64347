-- ===== src/Storage/Hooks.antt =====
-- The hooks of server/storage_io.c: writes, blob operations and the check of the namespace go to the
-- transaction session once it has set them. `S` is the state that a hook works on.
use dataman.Base.Int.{ℤ, pos}
use dataman.Base.{ℕ, Bool, true, Option, none, some}
use dataman.Storage.{Bytes}

-- An answer, and the state after it.
abbrev pub Hook : Type 0 → Type 0 → Type 0
Hook S A = S → A × S

-- `mutation_router`, `check_namespace` and `blob_router`; `none` is a null pointer. A blob operation
-- answers -1, 0 or 1.
pub record Hooks (S : Type 0) : Type 0 where
  pub mutation : Option (ℕ → Bytes → ℤ → Hook S Bool)
  pub namespace : Option (Hook S Bool)
  pub blob : Option (ℕ → Bytes → Option Bytes → Bytes → Hook S ℤ)

-- `dm_storage_set_router`
unfoldable pub set_router :
    {S : Type 0} → Option (ℕ → Bytes → ℤ → Hook S Bool) → Option (Hook S Bool) → Hooks S → Hooks S
set_router router check hooks = record hooks { mutation = router; namespace = check }

-- `dm_storage_namespace_check`
unfoldable pub namespace_allowed : {S : Type 0} → Hooks S → Hook S Bool
namespace_allowed hooks s = elim hooks.namespace [ none ↦ (true, s) | some check ↦ check s ]

-- `dm_storage_mutate_at`; with no router it is `dm_storage_write_at`, which is `write`.
unfoldable pub mutate_at :
    {S : Type 0} → (ℕ → Bytes → ℤ → Hook S Bool) → Hooks S → ℕ → Bytes → ℤ → Hook S Bool
mutate_at write hooks fd buffer offset s = elim hooks.mutation [
  | none ↦ write fd buffer offset s
  | some router ↦ router fd buffer offset s
]

-- `dm_storage_set_blob_router`
unfoldable pub set_blob_router :
    {S : Type 0} → Option (ℕ → Bytes → Option Bytes → Bytes → Hook S ℤ) → Hooks S → Hooks S
set_blob_router router hooks = record hooks { blob = router }

-- `dm_storage_blob_route`
unfoldable pub blob_route : {S : Type 0} → Hooks S → ℕ → Bytes → Option Bytes → Bytes → Hook S ℤ
blob_route hooks operation path dest content s = elim hooks.blob [
  | none ↦ (pos 0, s)
  | some router ↦ router operation path dest content s
]
