-- ===== src/Daemon/Files/Gives.antt =====
-- What a computation gives where it does not fail: a predicate that its result satisfies, through the
-- ways in which computations are put together.
use maid_cafe.Base.{Bool, true, false, if◌then◌else◌, Result, ok, err, ◌≡◌, refl, List}
use maid_cafe.Daemon.Files.Host.{Call, Io, pure, lift, ◌>>=◌, ◌>>◌, after}

-- Every result that is no error satisfies the predicate.
pub record Gives {E A : Type 0} (Q : A → Type 0) (m : Io E A) : Type 0 where
  pub at : (calls : List Call) (a : A) → (m calls).0 ≡ ok a → Q a

module _ {E A : Type 0} {Q : A → Type 0} where
  pub Gives-pure : (a : A) → Q a → Gives Q (pure {E = E} a)
  unfolding pure
  Gives-pure a q = record { at = λ calls b h. let e : a ≡ b = cc h in rw (← e) q }

  pub Gives-lift : (r : Result E A) → ((a : A) → r ≡ ok a → Q a) → Gives Q (lift r)
  unfolding lift
  Gives-lift r q = record { at = λ calls a h. q a h }

  pub Gives-if :
      (b : Bool) (m k : Io E A)
      → (b ≡ true → Gives Q m)
      → (b ≡ false → Gives Q k)
      → Gives Q (if b then m else k)
  Gives-if true m k h h' = h refl
  Gives-if false m k h h' = h' refl

module _ {E A B : Type 0} {Q : B → Type 0} where
  after-gives :
      (f : A → Io E B) (answer : Result E A × List Call) (b : B)
      → ((a : A) → answer.0 ≡ ok a → Gives Q (f a))
      → (after f answer).0 ≡ ok b
      → Q b
  unfolding after
  after-gives f (ok a, calls) b k h = (k a refl).at calls b h
  after-gives f (err e, calls) b k h = cc h

module _ {E A B : Type 0} {R : A → Type 0} {Q : B → Type 0} where
  pub Gives-bind :
      (m : Io E A) (f : A → Io E B)
      → Gives R m
      → ((a : A) → R a → Gives Q (f a))
      → Gives Q (m >>= f)
  unfolding ◌>>=◌
  Gives-bind m f g k = record {
    at = λ calls b h. after-gives f (m calls) b (λ a e. k a (g.at calls a e)) h;
  }

module _ {E A B : Type 0} {Q : B → Type 0} where
  pub Gives-bind_any : (m : Io E A) (f : A → Io E B) → ((a : A) → Gives Q (f a)) → Gives Q (m >>= f)
  unfolding ◌>>=◌
  Gives-bind_any m f k = record { at = λ calls b h. after-gives f (m calls) b (λ a e. k a) h }

  pub Gives-bind_lift :
      (r : Result E A) (f : A → Io E B)
      → ((a : A) → r ≡ ok a → Gives Q (f a))
      → Gives Q (lift r >>= f)
  unfolding ◌>>=◌ lift
  Gives-bind_lift r f k = record { at = λ calls b h. after-gives f (r, calls) b k h }

module _ {E B : Type 0} {Q : B → Type 0} where
  pub Gives-then : (m : Io E (Unit {0})) (k : Io E B) → Gives Q k → Gives Q (m >> k)
  unfolding ◌>>◌
  Gives-then m k g = Gives-bind_any m (λ _. k) (λ _. g)
