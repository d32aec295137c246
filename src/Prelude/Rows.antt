-- ===== src/Prelude/Rows.antt =====
-- A table of rows that carry a text key: what the SQL statements of the store do to it.
use Prim.Native.String.{String}
use mathlib.Core.Path.{◌≡◌, refl}
use mathlib.Core.Bool.{not}
use mathlib.Core.List.{List, [], ◌∷◌, ◌++◌}
use mathlib.Core.Option
use mathlib.Core.Option.{Option, none, some}
use native.Mathlib.Omega.{arith}
use text.Mathlib.Text.{◌==◌}
use text.Mathlib.TextEquality.{eq_iff}
use bandolier.Prelude.Tests.{if◌then◌else◌}
use bandolier.Prelude.Lists.{keep}

module _ {ℓ} {A : Type ℓ} (key : A → String) where
  -- `SELECT … WHERE key = k`: the first row, or `sql.ErrNoRows`.
  unfoldable pub find_row : String → List A → Option A
  find_row k [] = none
  find_row k (r ∷ rs) = if key r == k then some r else find_row k rs

  -- `UPDATE … SET … WHERE key = k`.
  unfoldable pub update_rows : String → (A → A) → List A → List A
  update_rows k f [] = []
  update_rows k f (r ∷ rs) = (if key r == k then f r else r) ∷ update_rows k f rs

  -- `DELETE … WHERE key = k`.
  unfoldable pub delete_rows : String → List A → List A
  delete_rows k rs = keep (λ r. not (key r == k)) rs

  pub find_row-update_rows :
      (f : A → A)
      → ((a : A) → key (f a) ≡ key a)
      → (k j : String) (rs : List A)
      → find_row j (update_rows k f rs)
        ≡ (if k == j then Option.map f (find_row j rs) else find_row j rs)
  unfolding find_row update_rows
  find_row-update_rows f same k j [] = ground arith
  find_row-update_rows f same k j (r ∷ rs) = ground (
    arith,
    same r,
    eq_iff (key r) k,
    eq_iff (key r) j,
    eq_iff k j,
    find_row-update_rows f same k j rs,
  )

  pub find_row-delete_rows :
      (k j : String) (rs : List A)
      → find_row j (delete_rows k rs) ≡ (if k == j then none else find_row j rs)
  unfolding find_row delete_rows
  find_row-delete_rows k j [] = ground arith
  find_row-delete_rows k j (r ∷ rs) =
      ground (arith, eq_iff (key r) k, eq_iff (key r) j, eq_iff k j, find_row-delete_rows k j rs)

  pub find_row-append :
      (k : String) (rs : List A) (r : A)
      → find_row k rs ≡ none
      → find_row k (rs ++ r ∷ []) ≡ (if key r == k then some r else none)
  unfolding find_row
  find_row-append k [] r h = refl
  find_row-append k (s ∷ rs) r h = ground (arith, find_row-append k rs r)
