-- ===== src/Exec/Reaches.antt =====
-- What holds of the state after a function, whether it returns or fails.
use photogallery.Prelude.{◌≡◌, refl}
use photogallery.Exec.{Result, ok, err, Exec, after, ◌>>=◌}
use photogallery.Exec.Keeps.{Keeps}
use photogallery.Exec.Ensures.{Ensures}

pub record Reaches {S E A : Type 0} (P J : S → Type 0) (m : Exec S E A) : Type 0 where
  pub at : (s : S) → P s → J (m s).1

module _ {S E A : Type 0} {P J : S → Type 0} where
  -- A function that keeps what is stronger.
  pub Reaches-Keeps : (m : Exec S E A) → Keeps P m → ((s : S) → P s → J s) → Reaches P J m
  Reaches-Keeps m k j = record { at = λ s h. j (m s).1 (k.at s h) }

module _ {S E A B : Type 0} {J : S → Type 0} where
  Keeps-rest :
      (r : Result E A) (f : A → Exec S E B) (s : S)
      → ((a : A) → Keeps J (f a))
      → J s
      → J (after r f s).1
  Keeps-rest (ok a) f s k h = (k a).at s h
  Keeps-rest (err e) f s k h = h

module _ {S E A B : Type 0} {P J : S → Type 0} where
  Reaches-after :
      (r : Result E A) (f : A → Exec S E B) (s : S)
      → ((a : A) → r ≡ ok a → Reaches P J (f a))
      → ((s : S) → P s → J s)
      → P s
      → J (after r f s).1
  Reaches-after (ok a) f s k j h = (k a refl).at s h
  Reaches-after (err e) f s k j h = j s h

  -- The steps before the one that counts keep `P`, and an error ends the function there.
  pub Reaches-bind :
      (R : A → Type 0) (m : Exec S E A) (f : A → Exec S E B)
      → Keeps P m
      → Ensures P R m
      → ((s : S) → P s → J s)
      → ((a : A) → R a → Reaches P J (f a))
      → Reaches P J (m >>= f)
  Reaches-bind R m f km rm j kf = record {
    at = λ s h. Reaches-after (m s).0 f (m s).1 (λ a e. kf a (rm.at s a h e)) j (km.at s h);
  }

  -- The steps after it keep what it has reached.
  pub Reaches-first :
      (m : Exec S E A) (f : A → Exec S E B)
      → Reaches P J m
      → ((a : A) → Keeps J (f a))
      → Reaches P J (m >>= f)
  Reaches-first m f km kf = record { at = λ s h. Keeps-rest (m s).0 f (m s).1 kf (km.at s h) }
