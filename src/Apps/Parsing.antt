-- ===== src/Apps/Parsing.antt =====
-- The parsers of api/internal/apps/helm.go, on what the JSON decoder gives, and `parseBoundedInt` of
-- handlers.go.
use Prim.Native.Char
use bandolier.Prelude.{
  ℕ, ◌+◌, ◌-◌, ◌*◌, String, Bool, true, false, ◌&&◌, ◌||◌, List, [], ◌∷◌, reverse, Option, none,
  some, ◌==◌, leb, ltb, eqb, if◌then◌else◌,
}
use bandolier.Store.Deployments.{take}
use bandolier.Apps.Types.{ℤ, pos, negsuc, CatalogEntry, Release, RawRelease, RawChart}
use bandolier.Apps.Store.{leb_text}
use bandolier.Validate.{code_points}

-- Digits only, at least one.
abbrev digit_value : Option ℕ → ℕ → Option ℕ
digit_value none c = none
digit_value (some n) c = if leb 48 c && leb c 57 then some (n * 10 + (c - 48)) else none

unfoldable pub digits_value : Option ℕ → List ℕ → Option ℕ
digits_value acc [] = acc
digits_value acc (c ∷ cs) = digits_value (digit_value acc c) cs

-- The ranges of an int64.
abbrev signed : Bool → Option ℕ → Option ℤ
signed negative none = none
signed true (some n) =
    if ltb 0x8000_0000_0000_0000 n then none else some (if eqb n 0 then pos 0 else negsuc (n - 1))
signed false (some n) = if ltb n 0x8000_0000_0000_0000 then some (pos n) else none

abbrev some_digits : List ℕ → Option ℕ
some_digits [] = none
some_digits (c ∷ cs) = digits_value (some 0) (c ∷ cs)

-- `strconv.Atoi`, on code points.
unfoldable pub atoi : List ℕ → Option ℤ
unfolding digits_value
atoi [] = none
atoi (c ∷ cs) =
    if eqb c 45
    then signed true (some_digits cs)
    else signed false (if eqb c 43 then some_digits cs else some_digits (c ∷ cs))

abbrev pub within : ℕ → ℕ → Option ℤ → Option ℕ
within lo hi none = none
within lo hi (some (negsuc n)) = none
within lo hi (some (pos n)) = if ltb n lo || ltb hi n then none else some n

-- `parseBoundedInt`, for bounds that are not negative.
unfoldable pub parse_bounded_int : String → ℕ → ℕ → Option ℕ
unfolding atoi
parse_bounded_int s lo hi = if s == "" then some 0 else within lo hi (atoi (code_points s))

-- `strings.Trim(s, "\"")`
abbrev is_mark : ℕ → Bool
is_mark c = eqb c 34

trim_marks : List ℕ → List ℕ
trim_marks [] = []
trim_marks (c ∷ cs) = if is_mark c then trim_marks cs else c ∷ cs

unfoldable pub unquoted : String → List ℕ
unfolding trim_marks
unquoted s = reverse (trim_marks (reverse (trim_marks (code_points s))))

abbrev release_of : RawRelease → ℤ → Release
release_of r revision = record {
  name = r.name;
  namespace = r.namespace;
  chart = r.chart;
  app_version = r.app_version;
  revision = revision;
  status = r.status;
  updated = r.updated;
}

-- A release whose revision is no number is left out.
unfoldable pub parse_releases : List RawRelease → List Release
unfolding unquoted atoi
parse_releases [] = []
parse_releases (r ∷ rs) =
    let rest = parse_releases rs in
    elim (atoi (unquoted r.revision)) [ none ↦ rest | some v ↦ release_of r v ∷ rest ]

-- The text behind the last `/`.
unfoldable pub short_name : String → String → String
short_name found String.[] = found
short_name found (String.◌∷◌ c s) = short_name (if eqb (Char.code c) 0x2f then s else found) s

-- Descending, as `sort.Reverse` of the texts.
unfoldable pub insert_version : String → List String → List String
insert_version v [] = v ∷ []
insert_version v (x ∷ xs) =
    let rest = insert_version v xs in if leb_text x v then v ∷ x ∷ xs else x ∷ rest

unfoldable pub versions_of : String → List RawChart → List String
unfolding insert_version
versions_of name [] = []
versions_of name (r ∷ rs) =
    let rest = versions_of name rs in if r.name == name then insert_version r.version rest else rest

abbrev first_version : List String → String
first_version [] = ""
first_version (v ∷ vs) = v

abbrev entry_of : String → List RawChart → RawChart → CatalogEntry
entry_of source all r = record {
  source = source;
  name = short_name r.name r.name;
  chart = r.name;
  description = r.description;
  latest_version = first_version (take 3 (versions_of r.name all));
  available_versions = take 3 (versions_of r.name all);
  system = false;
  ingress_value_path = "";
  icon = "";
  tag = "";
  type = "";
  charts = [];
}

abbrev has_name : String → List RawChart → Bool
has_name name [] = false
has_name name (r ∷ rs) = r.name == name || has_name name rs

-- One entry for each name, made from its first row; `seen` holds the rows before.
unfoldable pub group_charts :
    String → List RawChart → List RawChart → List RawChart → List CatalogEntry
unfolding versions_of short_name
group_charts source all seen [] = []
group_charts source all seen (r ∷ rs) =
    let rest = group_charts source all (r ∷ seen) rs in
    if has_name r.name seen then rest else entry_of source all r ∷ rest

unfoldable pub insert_short : CatalogEntry → List CatalogEntry → List CatalogEntry
insert_short e [] = e ∷ []
insert_short e (x ∷ xs) =
    let rest = insert_short e xs in if leb_text e.name x.name then e ∷ x ∷ xs else x ∷ rest

unfoldable pub sort_short : List CatalogEntry → List CatalogEntry
unfolding insert_short
sort_short [] = []
sort_short (e ∷ es) = insert_short e (sort_short es)

-- The order of two charts of the same short name is Go's choice.
-- `parseSearchJSON`, with the source that `SearchRepo` adds.
unfoldable pub parse_charts : String → List RawChart → List CatalogEntry
unfolding group_charts sort_short
parse_charts source rows = sort_short (group_charts source rows [] rows)
