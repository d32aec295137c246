-- ===== src/Clusters/Configure/Checks.antt =====
-- What a configuration that is stored has passed, said without the order of the checks.
use bandolier.Prelude.{
  String, Bool, true, false, not, ◌&&◌, ◌||◌, ◌≡◌, refl, List, [], ◌∷◌, Option, none, some, ◌==◌,
  if◌then◌else◌, up_to, arith,
}
use bandolier.Validate.{hostname}
use bandolier.Result.{is_ok, ok, err, Result}
use bandolier.Profiles.Images.{Distro, resolve_image}
use bandolier.Clusters.Settings.{
  Fault, ProxmoxConfig, NetworkConfig, InitRequest, first_fault, is_incomplete, is_partial,
  image_fault,
}

abbrev pub all_given : List String → Bool
all_given [] = true
all_given (s ∷ ss) = not (s == "") && all_given ss

abbrev pub required : ProxmoxConfig → NetworkConfig → List String
required p n =
    p.endpoint ∷ p.token_id ∷ p.token_secret ∷ p.username ∷ p.password ∷ n.master_ip ∷ n.agent1_ip
    ∷ n.agent2_ip ∷ n.bridge_name ∷ []

-- The required fields are given, the name is empty or a hostname, the VLAN is in 0..4094, and the
-- image can be resolved.
unfoldable pub is_sound : InitRequest → Bool
is_sound s =
    let p = s.proxmox in
    let n = s.network in
    all_given (required p n)
    && ((n.fqdn == "" || hostname n.fqdn)
        && (up_to 4094 n.vlan && is_ok (resolve_image p.distro p.custom_url p.custom_sha256)))

image_fault-ok : (r : Result Distro) → image_fault r ≡ none → is_ok r ≡ true
image_fault-ok (ok d) h = refl
image_fault-ok (err e) h = cc

-- The first four checks, whatever they test, were passed.
record Passed (partial incomplete bad_name bad_vlan : Bool) (rest : Option Fault) : Type 0 where
  keys : partial ≡ false
  filled : incomplete ≡ false
  name : bad_name ≡ false
  vlan : bad_vlan ≡ false
  image : rest ≡ none

passed :
    (a b c d : Bool) (f g h k : Fault) (rest : Option Fault)
    → (if a
        then some f
        else (if b then some g else (if c then some h else (if d then some k else rest))))
      ≡ none
    → Passed a b c d rest
passed true b c d f g h k rest e = cc
passed false true c d f g h k rest e = cc
passed false false true d f g h k rest e = cc
passed false false false true f g h k rest e = cc
passed false false false false f g h k rest e = record {
  keys = refl;
  filled = refl;
  name = refl;
  vlan = refl;
  image = e;
}

given_all :
    (p : ProxmoxConfig) (n : NetworkConfig)
    → is_incomplete p n ≡ false
    → all_given (required p n) ≡ true
given_all p n h = ground arith

joined :
    (is_blank is_host filled vlan image : Bool)
    → filled ≡ true
    → (not is_blank && not is_host) ≡ false
    → not vlan ≡ false
    → image ≡ true
    → (filled && ((is_blank || is_host) && (vlan && image))) ≡ true
joined is_blank is_host filled vlan image f n v i = ground arith

Passed-first :
    (s : InitRequest)
    → first_fault s ≡ none
    → Passed
        (is_partial s.ssh)
        (is_incomplete s.proxmox s.network)
        (not (s.network.fqdn == "") && not (hostname s.network.fqdn))
        (not (up_to 4094 s.network.vlan))
        (image_fault (resolve_image s.proxmox.distro s.proxmox.custom_url s.proxmox.custom_sha256))
unfolding first_fault
Passed-first s h = passed _ _ _ _ _ _ _ _ _ h

pub first_fault-is_sound : (s : InitRequest) → first_fault s ≡ none → is_sound s ≡ true
unfolding is_sound
first_fault-is_sound s h =
    let k = Passed-first s h in
    joined (s.network.fqdn == "") (hostname s.network.fqdn)
      (all_given (required s.proxmox s.network)) (up_to 4094 s.network.vlan) _
      (given_all s.proxmox s.network k.filled) k.name k.vlan (image_fault-ok _ k.image)

-- No key is given without the other.
pub first_fault-keys : (s : InitRequest) → first_fault s ≡ none → is_partial s.ssh ≡ false
first_fault-keys s h = (Passed-first s h).keys
