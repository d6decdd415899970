-- ===== src/Socks/Steps.antt =====
-- The steps of a handshake of src/socks/handler.rs: a call that goes on, or that ends the handshake.
use s.Common.{Bool, true, false, ◌≡◌, refl, if◌then◌else◌}
use s.Socks.Stream.{SocksError}

pub data HandshakeError : Type 0 where
  socks : SocksError → HandshakeError
  user_disappeared : HandshakeError

-- What a step comes to in a world: `Ok(None)` is `turned_away`, and a panic ends the task.
pub data Step (W A : Type 0) : Type 0 where
  goes : A → W → Step W A
  turned_away : W → Step W A
  broken : HandshakeError → W → Step W A
  dies : W → Step W A

abbrev pub after : {W A B : Type 0} → Step W A → (A → W → Step W B) → Step W B
after (goes a w) f = f a w
after (turned_away w) f = turned_away w
after (broken e w) f = broken e w
after (dies w) f = dies w

infixl 5 ◌>>=◌
abbrev pub ◌>>=◌ : {W A B : Type 0} → (W → Step W A) → (A → W → Step W B) → W → Step W B
(m >>= f) w = after (m w) f

-- `return Ok(None)` where a test fails.
abbrev pub require : {W : Type 0} → Bool → W → Step W Unit
require b w = if b then goes tt w else turned_away w

-- What goes on satisfies a predicate.
abbrev pub Granted : {W A : Type 0} → (A → Type 0) → Step W A → Type 0
Granted P (goes a w) = P a
Granted P (turned_away w) = Unit
Granted P (broken e w) = Unit
Granted P (dies w) = Unit

pub after-Granted :
    {W A B : Type 0} (P : A → Type 0) (Q : B → Type 0) (m : Step W A) (f : A → W → Step W B)
    → Granted P m
    → ((a : A) (w : W) → P a → Granted Q (f a w))
    → Granted Q (after m f)
after-Granted P Q (goes a w) f h k = k a w h
after-Granted P Q (turned_away w) f h k = tt
after-Granted P Q (broken e w) f h k = tt
after-Granted P Q (dies w) f h k = tt

abbrev Anything : {A : Type 0} → A → Type 0
Anything a = Unit

Anything-Granted : {W A : Type 0} (m : Step W A) → Granted Anything m
Anything-Granted (goes a w) = tt
Anything-Granted (turned_away w) = tt
Anything-Granted (broken e w) = tt
Anything-Granted (dies w) = tt

-- A step of which nothing is asked.
pub after-Granted_any :
    {W A B : Type 0} (Q : B → Type 0) (m : Step W A) (f : A → W → Step W B)
    → ((a : A) (w : W) → Granted Q (f a w))
    → Granted Q (after m f)
after-Granted_any Q m f k = after-Granted Anything Q m f (Anything-Granted m) (λ a w h. k a w)

pub require-Granted : {W : Type 0} (b : Bool) (w : W) → Granted (λ u. b ≡ true) (require b w)
require-Granted true w = refl
require-Granted false w = tt

pub turned_away-Granted :
    {W A B : Type 0} (P : B → Type 0) (m : Step W A) → Granted P (after m (λ a w. turned_away w))
turned_away-Granted P m = after-Granted_any P m _ (λ a w. tt)

pub always-Granted : {W A : Type 0} (P : A → Type 0) (m : Step W A) → ((a : A) → P a) → Granted P m
always-Granted P (goes a w) h = h a
always-Granted P (turned_away w) h = tt
always-Granted P (broken e w) h = tt
always-Granted P (dies w) h = tt

pub weaken-Granted :
    {W A : Type 0} (P Q : A → Type 0) (m : Step W A)
    → Granted P m
    → ((a : A) → P a → Q a)
    → Granted Q m
weaken-Granted P Q (goes a w) h k = k a h
weaken-Granted P Q (turned_away w) h k = tt
weaken-Granted P Q (broken e w) h k = tt
weaken-Granted P Q (dies w) h k = tt

-- Every world in which a step can end.
abbrev pub Everywhere : {W A : Type 0} → (W → Type 0) → Step W A → Type 0
Everywhere R (goes a w) = R w
Everywhere R (turned_away w) = R w
Everywhere R (broken e w) = R w
Everywhere R (dies w) = R w

-- Every world in which a step ends the handshake.
abbrev pub Ending : {W A : Type 0} → (W → Type 0) → Step W A → Type 0
Ending R (goes a w) = Unit
Ending R (turned_away w) = R w
Ending R (broken e w) = R w
Ending R (dies w) = R w

pub after-Everywhere :
    {W A B : Type 0} (R : W → Type 0) (m : Step W A) (f : A → W → Step W B)
    → Everywhere R m
    → ((a : A) (w : W) → R w → Everywhere R (f a w))
    → Everywhere R (after m f)
after-Everywhere R (goes a w) f h k = k a w h
after-Everywhere R (turned_away w) f h k = h
after-Everywhere R (broken e w) f h k = h
after-Everywhere R (dies w) f h k = h

pub after-Ending :
    {W A B : Type 0} (R R' : W → Type 0) (m : Step W A) (f : A → W → Step W B)
    → ((w : W) → R w → R' w)
    → Everywhere R m
    → ((a : A) (w : W) → R w → Ending R' (f a w))
    → Ending R' (after m f)
after-Ending R R' (goes a w) f i h k = k a w h
after-Ending R R' (turned_away w) f i h k = i w h
after-Ending R R' (broken e w) f i h k = i w h
after-Ending R R' (dies w) f i h k = i w h

pub require-Everywhere :
    {W : Type 0} (R : W → Type 0) (b : Bool) (w : W) → R w → Everywhere R (require b w)
require-Everywhere R true w h = h
require-Everywhere R false w h = h

-- What goes on satisfies a predicate, together with the world in which it goes on.
abbrev pub GrantedIn : {W A : Type 0} → (A → W → Type 0) → Step W A → Type 0
GrantedIn P (goes a w) = P a w
GrantedIn P (turned_away w) = Unit
GrantedIn P (broken e w) = Unit
GrantedIn P (dies w) = Unit

pub after-GrantedIn :
    {W A B : Type 0} (P : A → W → Type 0) (Q : B → Type 0) (m : Step W A) (f : A → W → Step W B)
    → GrantedIn P m
    → ((a : A) (w : W) → P a w → Granted Q (f a w))
    → Granted Q (after m f)
after-GrantedIn P Q (goes a w) f h k = k a w h
after-GrantedIn P Q (turned_away w) f h k = tt
after-GrantedIn P Q (broken e w) f h k = tt
after-GrantedIn P Q (dies w) f h k = tt

-- A predicate of what goes on, and one of every world in which the step can end.
pub Granted-Everywhere :
    {W A : Type 0} (P : A → Type 0) (R : W → Type 0) (m : Step W A)
    → Granted P m
    → Everywhere R m
    → GrantedIn (λ a w. P a × R w) m
Granted-Everywhere P R (goes a w) h k = (h, k)
Granted-Everywhere P R (turned_away w) h k = tt
Granted-Everywhere P R (broken e w) h k = tt
Granted-Everywhere P R (dies w) h k = tt

pub weaken-GrantedIn :
    {W A : Type 0} (P Q : A → W → Type 0) (m : Step W A)
    → GrantedIn P m
    → ((a : A) (w : W) → P a w → Q a w)
    → GrantedIn Q m
weaken-GrantedIn P Q (goes a w) h k = k a w h
weaken-GrantedIn P Q (turned_away w) h k = tt
weaken-GrantedIn P Q (broken e w) h k = tt
weaken-GrantedIn P Q (dies w) h k = tt
