-- ===== src/Engine/Effects/Keeps.antt =====
-- What an action leaves true of the process, whether it returns or fails.
use brokr.Common.{◌≡◌, refl, Bool, true, false, if◌then◌else◌, List, StrMap}
use brokr.Engine.Effects.{
  Result, ok, err, Error, Exec, Process, pure, raise, ask, try, ◌>>=◌, continue, inspect, lift,
  wrap_error, both, Job, Host, HttpRequest,
}
use brokr.Engine.Effects.Returns.{Returns}

pub record Keeps {X A : Type 0} (I : Process X → Type 0) (m : Exec X A) : Type 0 where
  pub at : (p : Process X) → I p → I (m p).1

module _ {X A : Type 0} {I : Process X → Type 0} where
  pub Keeps-pure : (a : A) → Keeps I (pure a)
  unfolding pure
  Keeps-pure a = record { at = λ p h. h }

  pub Keeps-raise : (e : Error) → Keeps I (raise {A = A} e)
  unfolding raise
  Keeps-raise e = record { at = λ p h. h }

  pub Keeps-if : (b : Bool) (m n : Exec X A) → Keeps I m → Keeps I n → Keeps I (if b then m else n)
  Keeps-if true m n hm hn = hm
  Keeps-if false m n hm hn = hn

module _ {X A B : Type 0} {I : Process X → Type 0} where
  Keeps-continue :
      (r : Result A) (f : A → Exec X B) (p : Process X)
      → ((a : A) → Keeps I (f a))
      → I p
      → I (continue r f p).1
  unfolding continue
  Keeps-continue (ok a) f p h i = (h a).at p i
  Keeps-continue (err e) f p h i = i

  pub Keeps-bind :
      (m : Exec X A) (f : A → Exec X B) → Keeps I m → ((a : A) → Keeps I (f a)) → Keeps I (m >>= f)
  unfolding ◌>>=◌
  Keeps-bind m f hm hf = record { at = λ p h. Keeps-continue (m p).0 f (m p).1 hf (hm.at p h) }

-- `I` says nothing of the outside world, nor of the jobs of the pool.
pub record IsLocal {X : Type 0} (I : Process X → Type 0) : Type 0 where
  pub world : (p : Process X) (x : X) → I p → I (record p { world = x })
  pub jobs : (p : Process X) (js : List Job) → I p → I (record p { jobs = js })

module _ {X A : Type 0} {I : Process X → Type 0} where
  pub Keeps-ask : (f : X → A × X) → IsLocal I → Keeps I (ask f)
  unfolding ask
  Keeps-ask f l = record { at = λ p h. l.world p _ h }

  pub Keeps-try : (f : X → Result A × X) → IsLocal I → Keeps I (try f)
  unfolding try
  Keeps-try f l = record { at = λ p h. l.world p _ h }

  pub Keeps-lift : (r : Result A) → Keeps I (lift r)
  unfolding lift
  Keeps-lift r = record { at = λ p h. h }

  pub Keeps-inspect : (f : Process X → A) → Keeps I (inspect f)
  unfolding inspect
  Keeps-inspect f = record { at = λ p h. h }

  pub Keeps-wrap_error : (f : Error → Error) (m : Exec X A) → Keeps I m → Keeps I (wrap_error f m)
  unfolding wrap_error
  Keeps-wrap_error f m hm = record { at = hm.at }

module _ {X A B : Type 0} {I : Process X → Type 0} where
  pub Keeps-both : (m : Exec X A) (n : Exec X B) → Keeps I m → Keeps I n → Keeps I (both m n)
  unfolding both
  Keeps-both m n hm hn = record { at = λ p h. hn.at _ (hm.at p h) }

-- `I` is kept by what transitions and actions ask of the world, and by the jobs of the pool.
pub record KeptByCalls {F X : Type 0} (host : Host F X) (I : Process X → Type 0) : Type 0 where
  pub now : Keeps I (ask host.now)
  pub new_uuid : Keeps I (ask host.new_uuid)
  pub range : (m : StrMap) → Keeps I (ask (host.range m))
  pub send_http : (request : HttpRequest) → Keeps I (ask (host.send_http request))
  pub jobs : (p : Process X) (js : List Job) → I p → I (record p { jobs = js })

pub IsLocal-KeptByCalls :
    {F X : Type 0} (host : Host F X) {I : Process X → Type 0} → IsLocal I → KeptByCalls host I
IsLocal-KeptByCalls host l = record {
  now = Keeps-ask _ l;
  new_uuid = Keeps-ask _ l;
  range = λ m. Keeps-ask _ l;
  send_http = λ request. Keeps-ask _ l;
  jobs = l.jobs;
}

module _ {X A B : Type 0} {I : Process X → Type 0} where
  -- What holds after the first action, and what the rest keeps.
  pub bind_ends :
      (m : Exec X A) (f : A → Exec X B) (p : Process X)
      → I (m p).1
      → ((a : A) → Keeps I (f a))
      → I ((m >>= f) p).1
  unfolding ◌>>=◌
  bind_ends m f p h hf = Keeps-continue (m p).0 f (m p).1 hf h

module _ {X A B : Type 0} {I : Process X → Type 0} (P : A → Type 0) where
  returned :
      (m : Exec X A) (f : A → Exec X B) (p : Process X) (r : Result A)
      → (m p).0 ≡ r
      → ((a : A) → (m p).0 ≡ ok a → P a)
      → ((a : A) → P a → Keeps I (f a))
      → I (m p).1
      → I (continue r f (m p).1).1
  unfolding continue
  returned m f p (ok a) e known hf h = (hf a (known a e)).at (m p).1 h
  returned m f p (err x) e known hf h = h

  -- The rest of a block may use what the first action returned.
  pub Keeps-bind_returned :
      (m : Exec X A) (f : A → Exec X B)
      → Keeps I m
      → Returns P m
      → ((a : A) → P a → Keeps I (f a))
      → Keeps I (m >>= f)
  unfolding ◌>>=◌
  Keeps-bind_returned m f km hm hf = record {
    at = λ p h. returned m f p (m p).0 refl (hm.at p) hf (km.at p h);
  }

  -- The rest of a block may use what the first action returns in a process where `I` holds.
  pub Keeps-bind_known :
      (m : Exec X A) (f : A → Exec X B)
      → ((p : Process X) → I p → I (m p).1 × ((a : A) → (m p).0 ≡ ok a → P a))
      → ((a : A) → P a → Keeps I (f a))
      → Keeps I (m >>= f)
  unfolding ◌>>=◌
  Keeps-bind_known m f hm hf = record {
    at = λ p h. let (kept, known) = hm p h in returned m f p (m p).0 refl known hf kept;
  }

pub ruleset keeps_rules = (
  Keeps-pure, Keeps-raise, Keeps-if, Keeps-bind, Keeps-ask, Keeps-try, Keeps-lift, Keeps-inspect,
  Keeps-wrap_error, Keeps-both,
)
