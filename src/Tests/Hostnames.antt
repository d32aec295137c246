-- ===== src/Tests/Hostnames.antt =====
-- Hostnames that are accepted and refused.
use Prim.Native.String.{count}
use bandolier.Prelude.{true, false, ◌≡◌, refl, ◌≤◌, All}
use bandolier.Validate.{hostname, code_points}
use bandolier.Validate.Alphabet.{is_hostname_char, hostname-All}

accepted : hostname "app-1.lab.example" ≡ true
unfolding hostname
accepted = refl

injected : hostname "app.example,admin.password=evil" ≡ false
unfolding hostname
injected = refl

trailing_dash : hostname "app-.example" ≡ false
unfolding hostname
trailing_dash = refl

empty_label : hostname "app..example" ≡ false
unfolding hostname
empty_label = refl

hostname-All_example :
    (count "app-1.lab.example" ≤ 253)
    × All (λ c. is_hostname_char c ≡ true) (code_points "app-1.lab.example")
hostname-All_example = hostname-All "app-1.lab.example" accepted
