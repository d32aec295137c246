-- ===== src/Apps/Catalog.antt =====
-- api/internal/apps/catalog.go: the curated entries, the cache of the merged catalog, and the
-- filter of the catalog's page.
pub mod Curated
use Prim.Native.String
use Prim.Native.Nat.{Ordering}
use text.Mathlib.Text.{starts_with}
use bandolier.Prelude.{
  ℕ, ◌-◌, String, Bool, true, false, not, ◌&&◌, ◌||◌, List, [], ◌∷◌, ◌++◌, Option, none, some, ◌==◌,
  leb, ltb, eqb, if◌then◌else◌, keep, length, drop, lookup, insert, erase, arith,
}
use bandolier.Text.{trim_space}
use bandolier.Apps.Types.{CatalogEntry}
use bandolier.Store.Deployments.{take}
use Curated.{curated}

unfoldable pub find_entry : String → List CatalogEntry → Option CatalogEntry
find_entry name [] = none
find_entry name (e ∷ es) = if e.name == name then some e else find_entry name es

-- `FindCurated`
unfoldable pub find_curated : String → Option CatalogEntry
unfolding find_entry
find_curated name = find_entry name curated

-- `strings.Contains`
unfoldable pub contains : String → String → Bool
contains String.[] q = q == ""
contains (String.◌∷◌ c s) q = starts_with (String.◌∷◌ c s) q || contains s q

abbrev pub match_source : String → CatalogEntry → Bool
match_source source e = source == "" || source == "all" || e.source == source

-- `lower` is `strings.ToLower`.
module _ (lower : String → String) where
  abbrev pub match_search : String → CatalogEntry → Bool
  match_search q e = q == "" || contains (lower e.name) q || contains (lower e.description) q

  abbrev pub matched : List CatalogEntry → String → String → List CatalogEntry
  matched entries search source =
      keep (λ e. match_source source e && match_search (lower (trim_space search)) e) entries

  -- No limit is 0. The handler refuses a negative limit or offset before it calls this.
  abbrev pub page : ℕ → ℕ → List CatalogEntry → List CatalogEntry
  page limit offset entries =
      if leb (length entries) offset
      then []
      else (if ltb 0 limit && ltb limit (length (drop offset entries))
          then take limit (drop offset entries)
          else drop offset entries)

  -- The page, and the number of the matching entries.
  unfoldable pub filter_catalog :
      List CatalogEntry → String → String → ℕ → ℕ → List CatalogEntry × ℕ
  unfolding contains
  filter_catalog entries search source limit offset =
      (page limit offset (matched entries search source), length (matched entries search source))

-- A curated chart hides the repo's entry of the same chart; a bundle has no chart.
unfoldable pub is_shadowed : List CatalogEntry → String → Bool
is_shadowed [] chart = false
is_shadowed (e ∷ es) chart = not (e.chart == "") && e.chart == chart || is_shadowed es chart

abbrev pub ltb_text : String → String → Bool
ltb_text s t = elim (String.compare s t) [ Ordering.lt ↦ true | _ ↦ false ]

-- Curated entries first, then by source and name.
abbrev pub before : CatalogEntry → CatalogEntry → Bool
before a b =
    if a.source == b.source
    then ltb_text a.name b.name
    else (if a.source == "curated"
        then true
        else (if b.source == "curated" then false else ltb_text a.source b.source))

-- An entry goes behind those that it does not precede: the order is stable.
unfoldable pub insert_entry : CatalogEntry → List CatalogEntry → List CatalogEntry
insert_entry e [] = e ∷ []
insert_entry e (x ∷ xs) =
    let rest = insert_entry e xs in if before x e then x ∷ rest else e ∷ x ∷ xs

unfoldable pub sort_entries : List CatalogEntry → List CatalogEntry
unfolding insert_entry
sort_entries [] = []
sort_entries (e ∷ es) = insert_entry e (sort_entries es)

unfoldable pub merge_curated : List CatalogEntry → List CatalogEntry → List CatalogEntry
unfolding is_shadowed sort_entries
merge_curated repo_entries seed =
    sort_entries (seed ++ keep (λ e. not (is_shadowed seed e.chart)) repo_entries)
