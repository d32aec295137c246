-- ===== src/Profiles/Images.antt =====
-- `ResolveImage` of api/internal/profiles/homelab/distros.go, which chooses the cloud image of the
-- nodes: one of the catalog or a custom one.
use Prim.Native.String.{count}
use Prim.Native.Char.{code}
use bandolier.Prelude.{
  ℕ, String, Bool, true, not, ◌&&◌, ◌||◌, List, [], ◌∷◌, Option, none, some, ◌==◌, leb, eqb,
  if◌then◌else◌, ◌≡◌, refl,
}
use bandolier.Text.{◌<>◌, trim_space, cut_suffix, base}
use bandolier.Result.{Result, ok, err, failure}

pub record Distro : Type 0 where
  pub id : String
  pub label : String
  pub urls : List String
  pub sha256 : String
  pub file_name : String

abbrev rocky9 : Distro
rocky9 = record {
  id = "rocky9";
  label = "Rocky Linux 9";
  urls =
      "https://dl.rockylinux.org/pub/rocky/9/images/x86_64/Rocky-9-GenericCloud.latest.x86_64.qcow2"
      ∷ "https://download.rockylinux.org/pub/rocky/9/images/x86_64/Rocky-9-GenericCloud.latest.x86_64.qcow2"
      ∷ "https://mirror.rackspace.com/rockylinux/9/images/x86_64/Rocky-9-GenericCloud.latest.x86_64.qcow2"
      ∷ [];
  sha256 = "15d81d3434b298142b2fdd8fb54aef2662684db5c082cc191c3c79762ed6360c";
  file_name = "Rocky-9-GenericCloud.latest.x86_64.img";
}

-- The map `Catalog` has one entry.
abbrev pub distro_catalog : String → Option Distro
distro_catalog id = if id == "rocky9" then some rocky9 else none

abbrev is_hex : ℕ → Bool
is_hex c = leb 48 c && leb c 57 || (leb 97 c && leb c 102 || leb 65 c && leb c 70)

all_hex : String → Bool
all_hex String.[] = true
all_hex (String.◌∷◌ c s) = is_hex (code c) && all_hex s

-- `^[0-9a-fA-F]{64}$`
unfoldable pub is_sha256 : String → Bool
unfolding all_hex
is_sha256 s = eqb (count s) 64 && all_hex s

abbrev pub cut_first : String → List String → String
cut_first name [] = name
cut_first name (e ∷ es) =
    let rest = cut_first name es in elim (cut_suffix name e) [ some s ↦ s <> ".img" | none ↦ rest ]

abbrev pub proxmox_safe_file_name : String → String
proxmox_safe_file_name name = cut_first name (".qcow2" ∷ ".qcow" ∷ ".raw" ∷ [])

abbrev pub custom_file_name : String → String
custom_file_name name =
    if name == "" || name == "." || name == "/" then "custom-image.img" else name

abbrev pub custom_image : String → String → Result Distro
custom_image url sha =
    if sha == ""
    then err (failure "custom_sha256 is required when custom_url is set")
    else (if not (is_sha256 sha)
        then err (failure "custom_sha256 must be 64 hex characters")
        else ok (record {
          id = "custom";
          label = "Custom image";
          urls = url ∷ [];
          sha256 = sha;
          file_name = proxmox_safe_file_name (custom_file_name (base url));
        }))

abbrev pub catalog_image : String → Result Distro
catalog_image id = elim (distro_catalog id) [
  | some d ↦ ok d
  | none ↦ err (failure ("unknown distro: \"" <> id <> "\""))
]

abbrev pub choose_image : String → String → String → Result Distro
choose_image id url sha =
    if id == "" && url == ""
    then err (failure "either distro or custom_url is required")
    else (if not (id == "") && not (url == "")
        then err (failure "distro and custom_url are mutually exclusive")
        else (if id == "" then custom_image url sha else catalog_image id))

unfoldable pub resolve_image : String → String → String → Result Distro
unfolding trim_space cut_suffix base is_sha256
resolve_image distro_id custom_url custom_sha =
    choose_image (trim_space distro_id) (trim_space custom_url) (trim_space custom_sha)

rocky9_example : resolve_image " rocky9" "" "" ≡ ok rocky9
unfolding resolve_image
rocky9_example = refl
