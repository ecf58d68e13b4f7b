-- ===== src/World/Keeps.antt =====
-- What an action leads to: from a state in `P` to one in `Q`, or to one in `E` where it raises. An
-- action that ends the process leads anywhere if `C` is the unit type, and nowhere if it is empty.
use async_engine.Base.{◌≡◌, refl, Bool, true, false, if◌then◌else◌}
use async_engine.Ruby.{Exn}
use async_engine.World.{World}
use async_engine.World.Monad.{
  Run, ok, raised, crash, M, and_then, to_protected, pure, raise, get, modify, protect, ◌>>=◌,
}

abbrev pub Ends : Type 0 → (E Q : World → Type 0) → {A : Type 0} → Run A → Type 0
Ends C E Q (ok a w) = Q w
Ends C E Q (raised e w) = E w
Ends C E Q crash = C

pub record Leads (C : Type 0) (E P Q : World → Type 0) {A : Type 0} (m : M A) : Type 0 where
  pub at : (w : World) → P w → Ends C E Q (m w)

protect_run :
    (C : Type 0) (P : World → Type 0) {A : Type 0} (r : Run A)
    → Ends C P P r
    → Ends C P P (to_protected r)
protect_run C P (ok a w) h = h
protect_run C P (raised e w) h = h
protect_run C P crash h = h

protect-Ends :
    (C : Type 0) (E P : World → Type 0) {A : Type 0} (r : Run A)
    → Ends C P P r
    → Ends C E P (to_protected r)
protect-Ends C E P (ok a w) h = h
protect-Ends C E P (raised e w) h = h
protect-Ends C E P crash h = h

module _ {C : Type 0} {E P Q : World → Type 0} where
  pub Leads-pure : {A : Type 0} (a : A) → ((w : World) → P w → Q w) → Leads C E P Q (pure a)
  unfolding pure
  Leads-pure a k = record { at = k }

  pub Leads-raise :
      {A : Type 0} (e : Exn) → ((w : World) → P w → E w) → Leads C E P Q (raise {A = A} e)
  unfolding raise
  Leads-raise e k = record { at = k }

  pub Leads-get : ((w : World) → P w → Q w) → Leads C E P Q get
  unfolding get
  Leads-get k = record { at = k }

  pub Leads-modify : (f : World → World) → ((w : World) → P w → Q (f w)) → Leads C E P Q (modify f)
  unfolding modify
  Leads-modify f k = record { at = k }

  pub Leads-if :
      {A : Type 0} (b : Bool) (m n : M A)
      → (b ≡ true → Leads C E P Q m)
      → (b ≡ false → Leads C E P Q n)
      → Leads C E P Q (if b then m else n)
  Leads-if true m n km kn = km refl
  Leads-if false m n km kn = kn refl

bind_run :
    (C : Type 0) (E Q R : World → Type 0) {A B : Type 0} (r : Run A) (k : A → M B)
    → Ends C E Q r
    → ((a : A) → Leads C E Q R (k a))
    → Ends C E R (and_then r k)
bind_run C E Q R (ok a w) k h kk = (kk a).at w h
bind_run C E Q R (raised e w) k h kk = h
bind_run C E Q R crash k h kk = h

module _ {C : Type 0} {E P Q R : World → Type 0} where
  pub Leads-bind :
      {A B : Type 0} (m : M A) (k : A → M B)
      → Leads C E P Q m
      → ((a : A) → Leads C E Q R (k a))
      → Leads C E P R (m >>= k)
  unfolding ◌>>=◌
  Leads-bind m k km kk = record { at = λ w h. bind_run C E Q R (m w) k (km.at w h) kk }

module _ (C : Type 0) (P : World → Type 0) where
  -- An invariant, also where the action raises.
  abbrev pub Keeps : {A : Type 0} → M A → Type 0
  Keeps m = Leads C P P P m

raised_run :
    (C : Type 0) (E F Q : World → Type 0) {A : Type 0} (r : Run A)
    → ((w : World) → E w → F w)
    → Ends C E Q r
    → Ends C F Q r
raised_run C E F Q (ok a w) k h = h
raised_run C E F Q (raised e w) k h = k w h
raised_run C E F Q crash k h = h

module _ {C : Type 0} {E F P Q : World → Type 0} where
  -- A weaker predicate for where the action raises.
  pub Leads-raised :
      {A : Type 0} (m : M A) → ((w : World) → E w → F w) → Leads C E P Q m → Leads C F P Q m
  Leads-raised m k km = record { at = λ w h. raised_run C E F Q (m w) k (km.at w h) }

module _ {C : Type 0} {P : World → Type 0} where
  pub Keeps-pure : {A : Type 0} (a : A) → Leads C P P P (pure a)
  Keeps-pure a = Leads-pure a (λ w h. h)

  pub Keeps-raise : {A : Type 0} (e : Exn) → Leads C P P P (raise {A = A} e)
  Keeps-raise e = Leads-raise e (λ w h. h)

  pub Keeps-get : Leads C P P P get
  Keeps-get = Leads-get (λ w h. h)

  pub Keeps-bind :
      {A B : Type 0} (m : M A) (k : A → M B)
      → Leads C P P P m
      → ((a : A) → Leads C P P P (k a))
      → Leads C P P P (m >>= k)
  Keeps-bind m k = Leads-bind m k

  pub Keeps-protect : {A : Type 0} (m : M A) → Leads C P P P m → Leads C P P P (protect m)
  unfolding protect
  Keeps-protect m km = record { at = λ w h. protect_run C P (m w) (km.at w h) }

  -- What `protect` passes on does not raise.
  pub Leads-protect :
      (E : World → Type 0) {A : Type 0} (m : M A) → Leads C P P P m → Leads C E P P (protect m)
  unfolding protect
  Leads-protect E m km = record { at = λ w h. protect-Ends C E P (m w) (km.at w h) }

pub ruleset keeps_rules = (Keeps-pure, Keeps-raise, Keeps-get, Keeps-bind, Keeps-protect, Leads-if)
