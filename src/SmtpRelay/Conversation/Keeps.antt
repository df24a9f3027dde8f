-- ===== src/SmtpRelay/Conversation/Keeps.antt =====
-- Handlers that leave the store as it is.
use zendou_backend.Common.{◌≡◌, refl, ◌∙◌}
use zendou_backend.SmtpRelay.Conversation.{
  Answer, done, replied, thrown, RelayState, Handler, next, ◌>>=◌,
}

abbrev pub KeepsStore : {A : Type 0} → Handler A → Type 0
KeepsStore m = (s : RelayState) → (m s).1.world ≡ s.world

next-KeepsStore :
    {A B : Type 0} (answer : Answer A) (k : A → Handler B) (s : RelayState)
    → ((a : A) → KeepsStore (k a))
    → (next answer s k).1.world ≡ s.world
next-KeepsStore (done a) k s later = later a s
next-KeepsStore (replied reply) k s later = refl
next-KeepsStore (thrown f) k s later = refl

pub >>=-KeepsStore :
    {A B : Type 0} (m : Handler A) (k : A → Handler B)
    → KeepsStore m
    → ((a : A) → KeepsStore (k a))
    → KeepsStore (m >>= k)
>>=-KeepsStore m k first later s = next-KeepsStore (m s).0 k (m s).1 later ∙ first s
