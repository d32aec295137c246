-- ===== src/Store/Keys.antt =====
-- Keys of a table: which are there, and that none is there twice.
use bandolier.Prelude.{
  String, Bool, true, false, ◌≡◌, refl, List, [], ◌∷◌, ◌++◌, ◌==◌, ◌||◌, eq_iff, arith, keep,
  update_rows, delete_rows,
}
use bandolier.Store.Clusters.{has_row}

module _ {ℓ} {A : Type ℓ} (key : A → String) where
  -- No two rows have the same key.
  abbrev pub Distinct : List A → Type 0
  Distinct [] = Unit
  Distinct (r ∷ rs) = (has_row key (key r) rs ≡ false) × Distinct rs

  pub has_row-append :
      (k : String) (rs : List A) (r : A)
      → has_row key k (rs ++ r ∷ []) ≡ (has_row key k rs || key r == k)
  has_row-append k [] r = ground arith
  has_row-append k (s ∷ rs) r = ground (arith, has_row-append k rs r)

  pub has_row-update_rows :
      (by : A → String) (f : A → A)
      → ((a : A) → key (f a) ≡ key a)
      → (k j : String) (rs : List A) → has_row key k (update_rows by j f rs) ≡ has_row key k rs
  unfolding update_rows
  has_row-update_rows by f same k j [] = refl
  has_row-update_rows by f same k j (r ∷ rs) =
      ground (arith, same r, has_row-update_rows by f same k j rs)

  pub has_row-keep-false :
      (p : A → Bool) (k : String) (rs : List A)
      → has_row key k rs ≡ false
      → has_row key k (keep p rs) ≡ false
  has_row-keep-false p k [] h = h
  has_row-keep-false p k (r ∷ rs) h = ground (arith, has_row-keep-false p k rs)

  pub has_row-delete_rows :
      (k j : String) (rs : List A)
      → (j == k) ≡ false
      → has_row key k rs ≡ true
      → has_row key k (delete_rows key j rs) ≡ true
  unfolding delete_rows
  has_row-delete_rows k j [] n h = h
  has_row-delete_rows k j (r ∷ rs) n h =
      ground (arith, eq_iff (key r) k, eq_iff (key r) j, eq_iff j k, has_row-delete_rows k j rs)

  pub Distinct-append :
      (rs : List A) (r : A) → has_row key (key r) rs ≡ false → Distinct rs → Distinct (rs ++ r ∷ [])
  Distinct-append [] r n d = (refl, tt)
  Distinct-append (s ∷ rs) r n d = ground (
    arith,
    has_row-append (key s) rs r,
    eq_iff (key r) (key s),
    eq_iff (key s) (key r),
    Distinct-append rs r,
  )

  pub Distinct-update_rows :
      (by : A → String) (f : A → A)
      → ((a : A) → key (f a) ≡ key a)
      → (j : String) (rs : List A) → Distinct rs
      → Distinct (update_rows by j f rs)
  unfolding update_rows
  Distinct-update_rows by f same j [] d = d
  Distinct-update_rows by f same j (r ∷ rs) d = ground (
    arith,
    same r,
    has_row-update_rows by f same (key r) j rs,
    has_row-update_rows by f same (key (f r)) j rs,
    Distinct-update_rows by f same j rs,
  )

  pub Distinct-keep : (p : A → Bool) (rs : List A) → Distinct rs → Distinct (keep p rs)
  Distinct-keep p [] d = d
  Distinct-keep p (r ∷ rs) d = ground (arith, has_row-keep-false p (key r) rs, Distinct-keep p rs)
