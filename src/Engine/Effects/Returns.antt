-- ===== src/Engine/Effects/Returns.antt =====
-- What an action returns when it does not fail, one rule for each way to build an action.
use brokr.Common.{◌≡◌, refl, Bool, true, false, if◌then◌else◌, subst, ap}
use brokr.Engine.Effects.{
  Result, ok, err, Error, Exec, Process, pure, raise, lift, try, ◌>>=◌, continue,
}

-- Whenever `m` does not fail, from whatever process state, its value has `P`.
pub record Returns {X A : Type 0} (P : A → Type 0) (m : Exec X A) : Type 0 where
  pub at : (p : Process X) (a : A) → (m p).0 ≡ ok a → P a

pub ok-injective : {A : Type 0} {a b : A} → ok a ≡ ok b → a ≡ b
ok-injective h = cc

pub ok≢err : {A : Type 0} {a : A} {e : Error} → ok a ≡ err e → ⊥
ok≢err h = cc

module _ {X A : Type 0} {P : A → Type 0} where
  pub Returns-pure : (a : A) → P a → Returns P (pure {X = X} a)
  unfolding pure
  Returns-pure a h = record { at = λ p b e. subst P (ok-injective e) h }

  pub Returns-raise : (e : Error) → Returns P (raise {X = X} e)
  unfolding raise
  Returns-raise e = record { at = λ p b h. cc }

  pub Returns-if :
      (b : Bool) (m n : Exec X A)
      → (b ≡ true → Returns P m)
      → (b ≡ false → Returns P n)
      → Returns P (if b then m else n)
  Returns-if true m n hm hn = hm refl
  Returns-if false m n hm hn = hn refl

module _ {X A B : Type 0} {Q : B → Type 0} where
  Returns-continue :
      (r : Result A) (f : A → Exec X B) (p : Process X)
      → ((a : A) → r ≡ ok a → Returns Q (f a))
      → (b : B) → (continue r f p).0 ≡ ok b
      → Q b
  unfolding continue
  Returns-continue (ok a) f p h b e = (h a refl).at p b e
  Returns-continue (err x) f p h b e = cc

  -- The rest of a block may use what the first action returned.
  pub Returns-bind :
      (P : A → Type 0) (m : Exec X A) (f : A → Exec X B)
      → Returns P m
      → ((a : A) → P a → Returns Q (f a))
      → Returns Q (m >>= f)
  unfolding ◌>>=◌
  Returns-bind P m f hm hf = record {
    at = λ p b e. Returns-continue (m p).0 f (m p).1 (λ a r. hf a (hm.at p a r)) b e;
  }

  -- Where the value of the first action does not matter.
  pub Returns-then :
      (m : Exec X A) (f : A → Exec X B) → ((a : A) → Returns Q (f a)) → Returns Q (m >>= f)
  Returns-then m f hf = Returns-bind (λ _. Unit) m f (record { at = λ p a e. tt }) (λ a _. hf a)

module _ {X A : Type 0} {P : A → Type 0} where
  pub Returns-lift : (r : Result A) → ((a : A) → r ≡ ok a → P a) → Returns P (lift {X = X} r)
  unfolding lift
  Returns-lift r h = record { at = λ p a e. h a e }

  pub Returns-any : (m : Exec X A) → ((a : A) → P a) → Returns P m
  Returns-any m h = record { at = λ p a e. h a }

module _ {X A : Type 0} {P Q : A → Type 0} {m : Exec X A} where
  pub Returns-weaken : Returns P m → ((a : A) → P a → Q a) → Returns Q m
  Returns-weaken h w = record { at = λ p a e. w a (h.at p a e) }

module _ {X A B : Type 0} where
  -- After a call that returned, and after one that failed.
  pub bind_ok :
      (m : Exec X A) (f : A → Exec X B) (p : Process X) {a : A}
      → (m p).0 ≡ ok a
      → (m >>= f) p ≡ f a (m p).1
  unfolding ◌>>=◌ continue
  bind_ok m f p h = rw (h, continue)

  pub bind_err :
      (m : Exec X A) (f : A → Exec X B) (p : Process X) {e : Error}
      → (m p).0 ≡ err e
      → (m >>= f) p ≡ (err e, (m p).1)
  unfolding ◌>>=◌ continue
  bind_err m f p h = rw (h, continue)

  pub bind_done :
      (m : Exec X A) (f : A → Exec X B) {p q : Process X} {a : A}
      → m p ≡ (ok a, q)
      → (m >>= f) p ≡ f a q
  unfolding ◌>>=◌ continue
  bind_done m f h = ap (λ r. continue r.0 f r.1) h

  pub bind_failed :
      (m : Exec X A) (f : A → Exec X B) {p q : Process X} {e : Error}
      → m p ≡ (err e, q)
      → (m >>= f) p ≡ (err e, q)
  unfolding ◌>>=◌ continue
  bind_failed m f h = ap (λ r. continue r.0 f r.1) h

module _ {X A : Type 0} where
  -- A call of the outside world whose answer is known.
  pub try_lem :
      (f : X → Result A × X) (p : Process X) {r : Result A} {x : X}
      → f p.world ≡ (r, x)
      → try f p ≡ (r, record p { world = x })
  unfolding try
  try_lem f p h = ap (λ q. (q.0, record p { world = q.1 })) h

-- Whenever `m` does not fail, its value and the process that it leaves have `P`.
pub record Ends {X A : Type 0} (P : A → Process X → Type 0) (m : Exec X A) : Type 0 where
  pub at : (p : Process X) (a : A) → (m p).0 ≡ ok a → P a (m p).1

pub Ends-raise : {X B : Type 0} {Q : B → Process X → Type 0} (e : Error) → Ends Q (raise {A = B} e)
unfolding raise
Ends-raise e = record { at = λ p b h. cc }

module _ {X A B : Type 0} {Q : B → Process X → Type 0} where
  Ends-continue :
      (r : Result A) (f : A → Exec X B) (p : Process X)
      → ((a : A) → Ends Q (f a))
      → (b : B) → (continue r f p).0 ≡ ok b
      → Q b (continue r f p).1
  unfolding continue
  Ends-continue (ok a) f p h b e = (h a).at p b e
  Ends-continue (err x) f p h b e = cc

  pub Ends-then : (m : Exec X A) (f : A → Exec X B) → ((a : A) → Ends Q (f a)) → Ends Q (m >>= f)
  unfolding ◌>>=◌
  Ends-then m f hf = record { at = λ p b e. Ends-continue (m p).0 f (m p).1 hf b e }
