-- ===== src/Common/Aborts.antt =====
-- A run that gives a value and the events for the listener, in order, or that a CHECK aborts.
use mathlib.Core.Option.{Option, none, some}
use mathlib.Core.Bool.{Bool, true, false}
use mathlib.Core.List.{List, [], ◌∷◌, ◌++◌}
use mathlib.Core.Path.{◌≡◌, refl}
use android_system_vold.Common.Tests.{if◌then◌else◌}
use android_system_vold.Common.Lists.{All}

abbrev pub Run : Type 0 → Type 0 → Type 0
Run E A = Option (A × List E)

abbrev pub return : {E A : Type 0} → A → Run E A
return a = some (a, [])

abbrev pub tell : {E : Type 0} → List E → Run E (Unit {0})
tell events = some (tt, events)

abbrev pub before : {E A : Type 0} → List E → Run E A → Run E A
before events none = none
before events (some (a, later)) = some (a, events ++ later)

infixl 5 ◌>>=◌ ◌>>◌
abbrev pub ◌>>=◌ : {E A B : Type 0} → Run E A → (A → Run E B) → Run E B
none >>= f = none
some (a, events) >>= f = before events (f a)

abbrev pub ◌>>◌ : {E B : Type 0} → Run E (Unit {0}) → Run E B → Run E B
m >> k = m >>= λ _. k

-- A CHECK.
abbrev pub check : {E : Type 0} → Bool → Run E (Unit {0})
check true = return tt
check false = none

-- The run is not aborted, and its value meets P.
abbrev pub Ensures : {E A : Type 0} → (A → Type 0) → Run E A → Type 0
Ensures P none = ⊥
Ensures P (some (a, events)) = P a

pub before-Ensures :
    {E A : Type 0} (P : A → Type 0) (events : List E) (m : Run E A)
    → Ensures P m
    → Ensures P (before events m)
before-Ensures P events none h = absurd h
before-Ensures P events (some (a, later)) h = h

-- The rule for a `do` block.
pub bind-Ensures :
    {E A B : Type 0} (P : A → Type 0) (Q : B → Type 0) (m : Run E A) (f : A → Run E B)
    → Ensures P m
    → ((a : A) → P a → Ensures Q (f a))
    → Ensures Q (m >>= f)
bind-Ensures P Q none f h g = absurd h
bind-Ensures P Q (some (a, events)) f h g = before-Ensures Q events (f a) (g a h)

pub weaken-Ensures :
    {E A : Type 0} (P Q : A → Type 0) (m : Run E A)
    → Ensures P m
    → ((a : A) → P a → Q a)
    → Ensures Q m
weaken-Ensures P Q none h g = absurd h
weaken-Ensures P Q (some (a, events)) h g = g a h

-- What a run that ensures P gives.
pub Ensures-result :
    {E A : Type 0} (P : A → Type 0) (m : Run E A)
    → Ensures P m
    → (a : A) × (events : List E) × (m ≡ some (a, events)) × P a
Ensures-result P none h = absurd h
Ensures-result P (some (a, events)) h = (a, events, refl, h)

pub if-Ensures :
    {E A : Type 0} (P : A → Type 0) (b : Bool) (m n : Run E A)
    → Ensures P m
    → Ensures P n
    → Ensures P (if b then m else n)
if-Ensures P true m n h g = h
if-Ensures P false m n h g = g

pub check-Ensures :
    {E B : Type 0} (Q : B → Type 0) (b : Bool) (k : Unit {0} → Run E B)
    → b ≡ true
    → Ensures Q (k tt)
    → Ensures Q (check b >>= k)
check-Ensures Q true k e h = before-Ensures Q [] (k tt) h
check-Ensures Q false k e h = cc

pub check-true : (E : Type 0) (b : Bool) → b ≡ true → Ensures {E = E} (λ _. Unit {0}) (check b)
check-true E true e = tt
check-true E false e = cc

-- If the run is not aborted, its events meet X and its value meets P.
abbrev pub Gives : {E A : Type 0} → (E → Type 0) → (A → Type 0) → Run E A → Type 0
Gives X P none = Unit {0}
Gives X P (some (a, events)) = All X events × P a

pub All-append :
    {A : Type 0} (P : A → Type 0) (xs ys : List A) → All P xs → All P ys → All P (xs ++ ys)
All-append P [] ys h g = g
All-append P (x ∷ xs) ys h g = (h.0, All-append P xs ys h.1 g)

pub before-Gives :
    {E A : Type 0} (X : E → Type 0) (P : A → Type 0) (events : List E) (m : Run E A)
    → All X events
    → Gives X P m
    → Gives X P (before events m)
before-Gives X P events none h g = tt
before-Gives X P events (some (a, later)) h g = (All-append X events later h g.0, g.1)

pub bind-Gives :
    {E A B : Type 0} (X : E → Type 0) (P : A → Type 0) (Q : B → Type 0) (m : Run E A)
    (f : A → Run E B)
    → Gives X P m
    → ((a : A) → P a → Gives X Q (f a))
    → Gives X Q (m >>= f)
bind-Gives X P Q none f h g = tt
bind-Gives X P Q (some (a, events)) f h g = before-Gives X Q events (f a) h.0 (g a h.1)

pub if-Gives :
    {E A : Type 0} (X : E → Type 0) (P : A → Type 0) (b : Bool) (m n : Run E A)
    → Gives X P m
    → Gives X P n
    → Gives X P (if b then m else n)
if-Gives X P true m n h g = h
if-Gives X P false m n h g = g

-- A run of which nothing is known.
any_events : {E : Type 0} (es : List E) → All (λ _. Unit {0}) es
any_events [] = tt
any_events (e ∷ es) = (tt, any_events es)

pub any-Gives : {E A : Type 0} (m : Run E A) → Gives (λ _. Unit {0}) (λ _. Unit {0}) m
any-Gives none = tt
any-Gives (some (a, events)) = (any_events events, tt)

pub check-Gives :
    {E B : Type 0} (X : E → Type 0) (Q : B → Type 0) (b : Bool) (k : Unit {0} → Run E B)
    → Gives X Q (k tt)
    → Gives X Q (check b >>= k)
check-Gives X Q true k h = before-Gives X Q [] (k tt) tt h
check-Gives X Q false k h = tt
