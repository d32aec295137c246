-- ===== src/World/Exec.antt =====
-- Actions that may end in an error, in the order of their effects.
use bandolier.Result.{Error, Result, ok, err}
use bandolier.World.{World}

abbrev pub Exec {ℓ} : Type ℓ → Type ℓ
Exec A = World → Result A × World

unfoldable pub pure {ℓ} : {A : Type ℓ} → A → Exec A
pure a w = (ok a, w)

unfoldable pub raise {ℓ} : {A : Type ℓ} → Error → Exec A
raise e w = (err e, w)

-- `_ = m`: the error is dropped.
unfoldable pub ignore {ℓ} : {A : Type ℓ} → Exec A → Exec (Unit {0})
ignore m w = (ok tt, (m w).1)

-- The error as a value.
unfoldable pub attempt {ℓ} : {A : Type ℓ} → Exec A → Exec (Result A)
attempt m w = (ok (m w).0, (m w).1)

-- An effect on the state alone.
unfoldable pub modify : (World → World) → Exec (Unit {0})
modify f w = (ok tt, f w)

abbrev pub rethrow {ℓ} : {A : Type ℓ} → Exec (Unit {0}) → Result A → World → Result A × World
rethrow cleanup (ok a) w = (ok a, w)
rethrow cleanup (err e) w = (err e, (cleanup w).1)

-- `if err != nil { cleanup; return err }`
unfoldable pub on_error {ℓ} : {A : Type ℓ} → Exec A → Exec (Unit {0}) → Exec A
on_error m cleanup w = rethrow cleanup (m w).0 (m w).1

abbrev pub handle {ℓ} : {A : Type ℓ} → (Error → Exec A) → Result A → World → Result A × World
handle h (ok a) w = (ok a, w)
handle h (err e) w = h e w

-- `if err != nil { return h(err) }`
unfoldable pub catch {ℓ} : {A : Type ℓ} → Exec A → (Error → Exec A) → Exec A
catch m h w = handle h (m w).0 (m w).1

abbrev pub continue {ℓ κ} :
    {A : Type ℓ} {B : Type κ} → (A → Exec B) → Result A → World → Result B × World
continue f (ok a) w = f a w
continue f (err e) w = (err e, w)

infixl 5 ◌>>=◌ ◌>>◌
-- Whoever opens this opens the other actions of the module.
unfoldable pub ◌>>=◌ {ℓ κ} : {A : Type ℓ} {B : Type κ} → Exec A → (A → Exec B) → Exec B
unfolding pure raise ignore attempt modify on_error catch
◌>>=◌ m f w = continue f (m w).0 (m w).1

abbrev pub ◌>>◌ {ℓ} : {B : Type ℓ} → Exec (Unit {0}) → Exec B → Exec B
m >> k = m >>= λ _. k
