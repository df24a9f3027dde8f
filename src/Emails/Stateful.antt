-- ===== src/Emails/Stateful.antt =====
-- The monad of the operations that write: what was written before a throw stays written.
use zendou_backend.Schema.{World}
use zendou_backend.Emails.Refusal.{Result, ok, err}

abbrev pub Exec : Type 0 → Type 0
Exec A = World → Result A × World

abbrev continue {ℓ} : {A : Type ℓ} {B : Type 0} → Result A → (A → Exec B) → World → Result B × World
continue (ok a) f w = f a w
continue (err e) f w = (err e, w)

infixl 5 ◌>>=◌ ◌>>◌
abbrev pub ◌>>=◌ : {A B : Type 0} → Exec A → (A → Exec B) → Exec B
◌>>=◌ m f w = let (r, w') = m w in continue r f w'

abbrev pub ◌>>◌ : {A B : Type 0} → Exec A → Exec B → Exec B
m >> k = m >>= λ _. k

abbrev pub reads : {A : Type 0} → (World → Result A) → Exec A
reads f w = (f w, w)

abbrev pub writes : (World → World) → Exec (Unit {0})
writes f w = (ok tt, f w)

abbrev pub pure : {A : Type 0} → A → Exec A
pure a w = (ok a, w)
