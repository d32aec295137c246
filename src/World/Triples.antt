-- ===== src/World/Triples.antt =====
-- Specifications of actions, one rule for each way to build one.
use bandolier.Prelude.{true, false, ◌≡◌, refl}
use bandolier.Result.{Error, Result, ok, err, is_ok}
use bandolier.World.{World}
use bandolier.World.Exec.{
  Exec, pure, raise, modify, ignore, attempt, catch, continue, handle, ◌>>=◌,
}

-- `Q` of the state if the action returned, `E` if it ended in an error.
abbrev pub Ends : {A : Type 0} → (World → Type 0) → (World → Type 0) → Result A → World → Type 0
Ends Q E (ok a) w = Q w
Ends Q E (err e) w = E w

-- From a state with `P` the action ends so.
pub record Spec {A : Type 0} (P Q E : World → Type 0) (m : Exec A) : Type 0 where
  pub at : (w : World) → P w → Ends Q E (m w).0 (m w).1

continue-Ends :
    {A B : Type 0} (Q R E : World → Type 0) (f : A → Exec B)
    → ((a : A) → Spec Q R E (f a))
    → (r : Result A) (w : World) → Ends Q E r w
    → Ends R E (continue f r w).0 (continue f r w).1
continue-Ends Q R E f sf (ok a) w q = (sf a).at w q
continue-Ends Q R E f sf (err e) w q = q

handle-Ends :
    {A : Type 0} (Q E E' : World → Type 0) (h : Error → Exec A)
    → ((e : Error) → Spec E' Q E (h e))
    → (r : Result A) (w : World) → Ends Q E' r w
    → Ends Q E (handle h r w).0 (handle h r w).1
handle-Ends Q E E' h sh (ok a) w q = q
handle-Ends Q E E' h sh (err e) w q = (sh e).at w q

pub Ends-either : {A : Type 0} (Q : World → Type 0) (r : Result A) (w : World) → Ends Q Q r w → Q w
Ends-either Q (ok a) w q = q
Ends-either Q (err e) w q = q

pub Ends-ok :
    {A : Type 0} (Q E : World → Type 0) (r : Result A) (w : World)
    → (is_ok r ≡ true → Q w)
    → E w
    → Ends Q E r w
Ends-ok Q E (ok a) w h e = h refl
Ends-ok Q E (err x) w h e = e

pub Ends-sure :
    {A : Type 0} (Q E : World → Type 0) (r : Result A) (w : World)
    → is_ok r ≡ true
    → Q w
    → Ends Q E r w
Ends-sure Q E (ok a) w h q = q
Ends-sure Q E (err e) w h q = cc

pub Ends-by :
    {A : Type 0} (Q E : World → Type 0) (r : Result A) (w : World)
    → (is_ok r ≡ true → Q w)
    → (is_ok r ≡ false → E w)
    → Ends Q E r w
Ends-by Q E (ok a) w q e = q refl
Ends-by Q E (err x) w q e = e refl

Ends-map :
    {A : Type 0} (Q Q' E E' : World → Type 0)
    → ((w : World) → Q' w → Q w)
    → ((w : World) → E' w → E w)
    → (r : Result A) (w : World) → Ends Q' E' r w
    → Ends Q E r w
Ends-map Q Q' E E' j i (ok a) w q = j w q
Ends-map Q Q' E E' j i (err e) w q = i w q

module _ {P Q R E : World → Type 0} {A B : Type 0} where
  pub Spec-bind :
      (m : Exec A) (f : A → Exec B)
      → Spec P Q E m
      → ((a : A) → Spec Q R E (f a))
      → Spec P R E (m >>= f)
  unfolding ◌>>=◌
  Spec-bind m f sm sf = record { at = λ w p. continue-Ends Q R E f sf (m w).0 (m w).1 (sm.at w p) }

module _ {P Q E : World → Type 0} {A : Type 0} where
  pub Spec-pure : ((w : World) → P w → Q w) → (a : A) → Spec P Q E (pure a)
  unfolding pure
  Spec-pure h a = record { at = h }

  pub Spec-raise : ((w : World) → P w → E w) → (e : Error) → Spec P Q E (raise {A = A} e)
  unfolding raise
  Spec-raise h e = record { at = h }

  -- The handler takes over where the action failed.
  pub Spec-catch :
      {E' : World → Type 0} (m : Exec A) (h : Error → Exec A)
      → Spec P Q E' m
      → ((e : Error) → Spec E' Q E (h e))
      → Spec P Q E (catch m h)
  unfolding catch
  Spec-catch {E'} m h sm sh = record {
    at = λ w p. handle-Ends Q E E' h sh (m w).0 (m w).1 (sm.at w p);
  }

  pub Spec-attempt : (m : Exec A) → Spec P Q Q m → Spec P Q E (attempt m)
  unfolding attempt
  Spec-attempt m sm = record { at = λ w p. Ends-either Q (m w).0 (m w).1 (sm.at w p) }

  pub Spec-ignore : (m : Exec A) → Spec P Q Q m → Spec P Q E (ignore m)
  unfolding ignore
  Spec-ignore m sm = record { at = λ w p. Ends-either Q (m w).0 (m w).1 (sm.at w p) }

module _ {P Q E : World → Type 0} where
  pub Spec-modify : (f : World → World) → ((w : World) → P w → Q (f w)) → Spec P Q E (modify f)
  unfolding modify
  Spec-modify f h = record { at = h }

  -- The consequence rule.
  pub Spec-weaken :
      {A : Type 0} {Q' E' : World → Type 0} (m : Exec A)
      → ((w : World) → Q' w → Q w)
      → ((w : World) → E' w → E w)
      → Spec P Q' E' m
      → Spec P Q E m
  Spec-weaken {Q'} {E'} m j i sm = record {
    at = λ w p. Ends-map Q Q' E E' j i (m w).0 (m w).1 (sm.at w p);
  }
