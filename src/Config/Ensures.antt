-- ===== src/Config/Ensures.antt =====
-- What a computation that may throw ensures of its result.
use telegram_rest_gateway.Prelude.{◌≡◌, refl, sym, ap, ◌∙◌, Bool, true, nat_eq, bytes_eq}
use telegram_rest_gateway.Config.Environment.{Result, ok, throws, ◌>>=◌}

abbrev pub ensures : {A : Type 0} → (A → Bool) → Result A → Bool
ensures p (ok a) = p a
ensures p (throws e) = true

pub ensures_bind :
    {A B : Type 0} (p : A → Bool) (q : B → Bool) (m : Result A) (f : A → Result B)
    → ensures p m ≡ true
    → ((a : A) → p a ≡ true → ensures q (f a) ≡ true)
    → ensures q (m >>= f) ≡ true
ensures_bind p q (ok a) f h k = k a h
ensures_bind p q (throws e) f h k = refl

-- The same where nothing is known of the first part.
pub ensures_each :
    {A B : Type 0} (q : B → Bool) (m : Result A) (f : A → Result B)
    → ((a : A) → ensures q (f a) ≡ true)
    → ensures q (m >>= f) ≡ true
ensures_each q (ok a) f k = k a
ensures_each q (throws e) f k = refl

pub ensures_ok :
    {A : Type 0} (p : A → Bool) (m : Result A) (a : A) → ensures p m ≡ true → m ≡ ok a → p a ≡ true
ensures_ok p m a h e = sym (ap (ensures p) e) ∙ h
