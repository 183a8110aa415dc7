-- ===== src/Exec.antt =====
-- Code that calls the database and may stop early: a state, and a value or an exit. A store function
-- exits with its error, a handler with the response that it wrote before it returned.
pub mod Triple
use open_vtl.Prelude.{Bool, true, false, Option, none, some}

pub data Result (E A : Type 0) : Type 0 where
  ok : A → Result E A
  err : E → Result E A

abbrev pub Exec : Type 0 → Type 0 → Type 0 → Type 0
Exec S E A = S → Result E A × S

abbrev pub then_run : {S E A B : Type 0} → (A → Exec S E B) → Result E A × S → Result E B × S
then_run f (ok a, s) = f a s
then_run f (err e, s) = (err e, s)

infixl 5 ◌>>=◌ ◌>>◌
abbrev pub ◌>>=◌ : {S E A B : Type 0} → Exec S E A → (A → Exec S E B) → Exec S E B
◌>>=◌ m f = λ s. then_run f (m s)

abbrev pub ◌>>◌ : {S E A B : Type 0} → Exec S E A → Exec S E B → Exec S E B
m >> k = m >>= λ _. k

abbrev pub pure : {S E A : Type 0} → A → Exec S E A
pure a s = (ok a, s)

abbrev pub exit : {S E A : Type 0} → E → Exec S E A
exit e s = (err e, s)

unfoldable pub exit_if : {S E : Type 0} → Bool → E → Exec S E (Unit {0})
exit_if true e = exit e
exit_if false e = pure tt

-- The value of an option, or an exit.
unfoldable pub or_exit : {S E A : Type 0} → E → Option A → Exec S E A
or_exit e none = exit e
or_exit e (some a) = pure a

abbrev pub handle_run : {S E F A : Type 0} → (E → Exec S F A) → Result E A × S → Result F A × S
handle_run g (ok a, s) = (ok a, s)
handle_run g (err e, s) = g e s

-- `if err != nil { … }` after a call.
abbrev pub on_error : {S E F A : Type 0} → (E → Exec S F A) → Exec S E A → Exec S F A
on_error g m = λ s. handle_run g (m s)

abbrev pub observe_run : {S E F A : Type 0} → Result E A × S → Result F (Result E A) × S
observe_run (r, s) = (ok r, s)

-- The call's own result, for code that looks at the error or drops it.
abbrev pub observe : {S E F A : Type 0} → Exec S E A → Exec S F (Result E A)
observe m = λ s. observe_run (m s)

abbrev pub gets : {S E A : Type 0} → (S → A) → Exec S E A
gets f s = (ok (f s), s)

abbrev pub modify : {S E : Type 0} → (S → S) → Exec S E (Unit {0})
modify f s = (ok tt, f s)
