-- ===== src/Controller/Builder/Steps.antt =====
-- Results of the builders of service/controller that were reached in several steps.
use xray_r4u.Base.{◌≡◌, refl, Option, none, some, arith}
use xray_r4u.Controller.Builder.Settings.{BuildError, Result, ok, fail, then_build, or_fail}

-- A build in two steps has succeeded exactly where both have.
pub then_build-ok :
    {A B : Type 0} (r : Result A) (f : A → Result B) (b : B)
    → then_build r f ≡ ok b
    → (a : A) × ((r ≡ ok a) × (f a ≡ ok b))
then_build-ok (ok a) f b e = (a, (refl, e))
then_build-ok (fail err) f b e = absurd (ground arith)

pub or_fail-ok :
    {A : Type 0} (err : BuildError) (o : Option A) (a : A) → or_fail err o ≡ ok a → o ≡ some a
or_fail-ok err none a e = absurd (ground arith)
or_fail-ok err (some b) a e = ground arith

pub ok-injective : {A : Type 0} {a b : A} → ok a ≡ ok b → a ≡ b
ok-injective e = ground arith
