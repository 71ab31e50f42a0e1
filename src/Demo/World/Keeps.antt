-- ===== src/Demo/World/Keeps.antt =====
-- What every end of an action of packages/dogos_demo leaves alone, an error included.
use dogos_memory.Base.{Result, ap, err, ok, refl, ◌≡◌}
use dogos_memory.Demo.Models.{DemoError}
use dogos_memory.Demo.World.{Action, World, go_on, lift, pure, ◌>>=◌}

-- Whatever the action does, it goes from a world to one that `R` relates to it.
pub record Keeps {A : Type 0} (R : World → World → Type 0) (m : Action A) : Type 0 where
  pub at : (w : World) → R w (m w).1

pub record IsPreorder (R : World → World → Type 0) : Type 0 where
  pub same : (w : World) → R w w
  pub then : (w w' w'' : World) → R w w' → R w' w'' → R w w''

module _ {A : Type 0} {R : World → World → Type 0} (p : IsPreorder R) where
  pub Keeps-lift : (r : Result DemoError A) → Keeps {A = A} R (lift r)
  Keeps-lift r = record { at = p.same }

  go_on-keeps :
      {B : Type 0} (f : A → Action B) (w : World) (x : Result DemoError A × World)
      → R w x.1
      → ((a : A) → Keeps {A = B} R (f a))
      → R w (go_on f x).1
  go_on-keeps f w (ok a, w') r kf = p.then w w' (f a w').1 r ((kf a).at w')
  go_on-keeps f w (err e, w') r kf = r

  pub Keeps-bind :
      {B : Type 0} (m : Action A) (f : A → Action B)
      → Keeps {A = A} R m
      → ((a : A) → Keeps {A = B} R (f a))
      → Keeps {A = B} R (m >>= f)
  Keeps-bind m f km kf = record { at = λ w. go_on-keeps f w (m w) (km.at w) kf }

  pub Keeps-lift_bind :
      {B : Type 0} (r : Result DemoError A) (f : A → Action B)
      → ((a : A) → Keeps {A = B} R (f a))
      → Keeps {A = B} R (lift r >>= f)
  Keeps-lift_bind r f kf = record { at = λ w. go_on-keeps f w (r, w) (p.same w) kf }

-- Two parts with relations of their own, where the first may be the last.
module _ {A B : Type 0} {R S T : World → World → Type 0} (stop : (w w' : World) → R w w' → T w w')
    (join : (w w' w'' : World) → R w w' → S w' w'' → T w w'') where
  go_on-joins :
      (f : A → Action B) (w : World) (x : Result DemoError A × World)
      → R w x.1
      → ((a : A) → Keeps {A = B} S (f a))
      → T w (go_on f x).1
  go_on-joins f w (ok a, w') r kf = join w w' (f a w').1 r ((kf a).at w')
  go_on-joins f w (err e, w') r kf = stop w w' r

  pub Keeps-join :
      (m : Action A) (f : A → Action B)
      → Keeps {A = A} R m
      → ((a : A) → Keeps {A = B} S (f a))
      → Keeps {A = B} T (m >>= f)
  Keeps-join m f km kf = record { at = λ w. go_on-joins f w (m w) (km.at w) kf }

module _ {A B : Type 0} where
  go_on-inv :
      (f : A → Action B) (x : Result DemoError A × World) {b : B} {w' : World}
      → go_on f x ≡ (ok b, w')
      → (a : A) × (x ≡ (ok a, x.1)) × (f a x.1 ≡ (ok b, w'))
  go_on-inv f (ok a, w) h = (a, refl, h)
  go_on-inv f (err e, w) h = cc h

  -- How an action of two parts ended without an error.
  pub bind-inv :
      (m : Action A) (f : A → Action B) (w : World) {b : B} {w' : World}
      → (m >>= f) w ≡ (ok b, w')
      → (a : A) × (m w ≡ (ok a, (m w).1)) × (f a (m w).1 ≡ (ok b, w'))
  bind-inv m f w h = go_on-inv f (m w) h

  -- An action whose first part ends well goes on with the second.
  pub bind_ok :
      (m : Action A) (f : A → Action B) (w : World) {a : A} {w' : World}
      → m w ≡ (ok a, w')
      → (m >>= f) w ≡ f a w'
  bind_ok m f w h = ap (go_on f) h

  go_on-pure-inv :
      (g : A → B) (x : Result DemoError A × World) {b : B} {w' : World}
      → go_on (λ a. pure (g a)) x ≡ (ok b, w')
      → (a : A) × (x ≡ (ok a, w')) × (g a ≡ b)
  go_on-pure-inv g (ok a, w) h = (a, ap (λ y. (ok a, y.1)) h, cc (ap (λ y. y.0) h))
  go_on-pure-inv g (err e, w) h = absurd (cc (ap (λ y. y.0) h))

  -- How an action that returns a value of its only call ended without an error.
  pub bind_pure-inv :
      (m : Action A) (g : A → B) (w : World) {b : B} {w' : World}
      → (m >>= λ a. pure (g a)) w ≡ (ok b, w')
      → (a : A) × (m w ≡ (ok a, w')) × (g a ≡ b)
  bind_pure-inv m g w h = go_on-pure-inv g (m w) h
