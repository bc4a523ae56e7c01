-- ===== src/Daemon/Files/Calls.antt =====
-- Which calls a computation makes: a predicate that every one of them satisfies, through each of the
-- ways in which computations are put together.
use maid_cafe.Base.{
  All, All-append, Result, ok, err, Bool, true, false, ◌≡◌, refl, sym, ◌++◌, List, [], ◌∷◌,
  if◌then◌else◌, ap, ◌∙◌, append_assoc,
}
use maid_cafe.Daemon.Files.Host.{
  Call, Io, pure, fail, lift, ◌>>=◌, ◌>>◌, after, refuse, ask, map_error, attempt, foresee,
}

-- Every call that a computation makes satisfies the predicate.
pub record Only {E A : Type 0} (P : Call → Type 0) (m : Io E A) : Type 0 where
  pub at : (calls : List Call) → (made : List Call) × ((m calls).1 ≡ made ++ calls) × All P made

module _ {E A : Type 0} {P : Call → Type 0} where
  pub Only-pure : (a : A) → Only P (pure {E = E} a)
  unfolding pure
  Only-pure a = record { at = λ calls. ([], refl, tt) }

  pub Only-fail : (e : E) → Only P (fail {A = A} e)
  unfolding fail
  Only-fail e = record { at = λ calls. ([], refl, tt) }

  pub Only-lift : (r : Result E A) → Only P (lift r)
  unfolding lift
  Only-lift r = record { at = λ calls. ([], refl, tt) }

  pub Only-foresee : (answer : List Call → A) → Only P (foresee {E = E} answer)
  unfolding foresee
  Only-foresee answer = record { at = λ calls. ([], refl, tt) }

  pub Only-ask : (call : Call) (answer : List Call → Result E A) → P call → Only P (ask call answer)
  unfolding ask
  Only-ask call answer h = record { at = λ calls. (call ∷ [], refl, (h, tt)) }

  pub Only-if :
      (b : Bool) (m k : Io E A)
      → (b ≡ true → Only P m)
      → (b ≡ false → Only P k)
      → Only P (if b then m else k)
  Only-if true m k h h' = h refl
  Only-if false m k h h' = h' refl

module _ {E A B : Type 0} {P : Call → Type 0} where
  bind-at :
      (f : A → Io E B)
      → ((a : A) → Only P (f a))
      → (answer : Result E A × List Call) (calls made : List Call) → answer.1 ≡ made ++ calls
      → All P made
      → (made' : List Call) × ((after f answer).1 ≡ made' ++ calls) × All P made'
  unfolding after
  bind-at f k (ok a, calls') calls made e ps =
      let (made', e', ps') = (k a).at calls' in
      (
        made' ++ made,
        e' ∙ ap (λ rest. made' ++ rest) e ∙ sym (append_assoc made' made calls),
        All-append P made' made ps' ps,
      )
  bind-at f k (err e', calls') calls made e ps = (made, e, ps)

  pub Only-bind :
      (m : Io E A) (f : A → Io E B) → Only P m → ((a : A) → Only P (f a)) → Only P (m >>= f)
  unfolding ◌>>=◌
  Only-bind m f h k = record {
    at = λ calls. let (made, e, ps) = h.at calls in bind-at f k (m calls) calls made e ps;
  }

  -- the rest may use that the result is no error
  pub Only-bind_lift :
      (r : Result E A) (f : A → Io E B)
      → ((a : A) → r ≡ ok a → Only P (f a))
      → Only P (lift r >>= f)
  unfolding ◌>>=◌ after lift fail
  Only-bind_lift (ok a) f k = k a refl
  Only-bind_lift (err e) f k = Only-fail e

  pub Only-map_error : (f : E → B) (m : Io E A) → Only P m → Only P (map_error f m)
  unfolding map_error
  Only-map_error f m h = record { at = h.at }

  pub Only-attempt : (m : Io E A) → Only P m → Only P (attempt {F = B} m)
  unfolding attempt
  Only-attempt m h = record { at = h.at }

module _ {E B : Type 0} {P : Call → Type 0} where
  pub Only-then : (m : Io E (Unit {0})) (k : Io E B) → Only P m → Only P k → Only P (m >> k)
  unfolding ◌>>◌
  Only-then m k h h' = Only-bind m (λ _. k) h (λ _. h')

  -- the rest may use that the test failed
  pub Only-refuse :
      (b : Bool) (e : E) (k : Io E B) → (b ≡ false → Only P k) → Only P (refuse b e >> k)
  unfolding ◌>>=◌ ◌>>◌ refuse pure fail after
  Only-refuse true e k h = Only-fail e
  Only-refuse false e k h = h refl

pub ruleset only_rules = (
  Only-pure, Only-fail, Only-lift, Only-foresee, Only-if, Only-bind, Only-map_error, Only-attempt,
  Only-refuse, Only-then,
)
