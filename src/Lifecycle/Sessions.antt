-- ===== src/Lifecycle/Sessions.antt =====
-- Sessions of a process whose calls of Boot and Shutdown do not overlap.
use brokr.Common.{
  ℕ, String, true, Option, none, some, ◌≡◌, refl, sym, subst, ◌∙◌, arith, Bool-cases, inl, inr,
  Option-cases,
}
use brokr.Engine.Effects.{Process}
use brokr.Lifecycle.{
  Fault, Config, Brokr, Global, made, new, configured, start, boot, boot_under, boot_after, is_live,
  release, stop_background, drain, settle, shutdown, shutdown_after,
}

-- What a live engine can rely on.
pub record Installed {H X : Type 0} (b : Brokr H) (g : Global H X) : Type 0 where
  pub handle : (db : H) × (g.store ≡ some db) × (b.cfg.db ≡ some db)
  pub wired : g.process.hooks_wired ≡ true
  pub pooled : g.pool_started ≡ true

-- The state that `live` asks for.
abbrev pub IsServed : {H X : Type 0} → Option (Brokr H) → Global H X → Type 0
IsServed none g = Unit
IsServed (some b) g = Installed b g

made_has_db :
    {H : Type 0} (address : ℕ) (cfg : Config H) {b : Brokr H}
    → new address cfg ≡ made b
    → (db : H) × (b.cfg.db ≡ some db)
unfolding new configured
made_has_db address cfg {b} e = elim (Option-cases cfg.db) [
  | inl n ↦ ground arith
  | inr (db, s) ↦ (db, ground arith)
]

carry :
    {H X : Type 0} (l : Option (Brokr H)) (g h : Global H X)
    → h.store ≡ g.store
    → h.process.hooks_wired ≡ g.process.hooks_wired
    → h.pool_started ≡ g.pool_started
    → IsServed l g
    → IsServed l h
carry none g h s w t i = tt
carry (some b) g h s w t i =
    let (db, stored, own) = i.handle in
    record { handle = (db, s ∙ stored, own); wired = w ∙ i.wired; pooled = t ∙ i.pooled }

module _ {H X : Type 0} (gorm_migrate : H → X → Option String × X) where
  -- A step of the process: a Boot of an engine that New made, a Shutdown, or work of the engine,
  -- which changes neither the hooks nor the state of package brokr.
  pub data Step : Global H X → Global H X → Type 0 where
    boots :
        {g : Global H X} (cancelled : Option String) (address : ℕ) (cfg : Config H) {b : Brokr H}
        → new address cfg ≡ made b
        → Step g (boot gorm_migrate cancelled b g).1
    shuts_down :
        {g : Global H X} (work : Process X → Process X) (ended : Option String) (b : Brokr H)
        → Step g (shutdown work ended b g).1
    works :
        {g : Global H X} (p : Process X)
        → p.hooks_wired ≡ g.process.hooks_wired
        → Step g (record g { process = p })

  -- What a process reaches from its start, when `live` is nil.
  pub data Reach : Global H X → Type 0 where
    begins : {g : Global H X} → g.live ≡ none → Reach g
    next : {g h : Global H X} → Reach g → Step g h → Reach h

  boot_after-IsServed :
      (r : Option Fault × X) (b : Brokr H) (g : Global H X) (db : H)
      → b.cfg.db ≡ some db
      → g.live ≡ none
      → let h = (boot_after gorm_migrate r b g).1 in IsServed h.live h
  unfolding boot_after start
  boot_after-IsServed (some e, x) b g db s n = rw n tt
  boot_after-IsServed (none, x) b g db s n = record {
    handle = (db, s, s);
    wired = refl;
    pooled = refl;
  }

  boot_under-IsServed :
      (b : Brokr H) (g : Global H X) (db : H)
      → b.cfg.db ≡ some db
      → (l : Option (Brokr H)) → g.live ≡ l
      → IsServed l g
      → let h = (boot_under gorm_migrate l b g).1 in IsServed h.live h
  unfolding boot_under
  boot_under-IsServed b g db s none n i = boot_after-IsServed _ b g db s n
  boot_under-IsServed b g db s (some a) n i = subst (λ l. IsServed l g) (sym n) i

  settle-IsServed :
      (work : Process X → Process X) (ended : Option String) (g : Global H X)
      → g.live ≡ none
      → let h = (settle ended (drain work (stop_background g))).1 in IsServed h.live h
  unfolding settle drain stop_background
  settle-IsServed work none g n = rw n tt
  settle-IsServed work (some e) g n = rw n tt

  shutdown-IsServed :
      (work : Process X → Process X) (ended : Option String) (b : Brokr H) (g : Global H X)
      → IsServed g.live g
      → let h = (shutdown work ended b g).1 in IsServed h.live h
  unfolding shutdown shutdown_after release
  shutdown-IsServed work ended b g i = elim (Bool-cases (is_live g.live b)) [
    | inl e ↦ rw e (settle-IsServed work ended (record g { live = none }) refl)
    | inr e ↦ rw e i
  ]

  Step-IsServed : {g h : Global H X} → Step g h → IsServed g.live g → IsServed h.live h
  unfolding boot
  Step-IsServed (Step.boots {g} (some e) address cfg m) i = i
  Step-IsServed (Step.boots {g} none address cfg m) i =
      let (db, s) = made_has_db address cfg m in boot_under-IsServed _ g db s g.live refl i
  Step-IsServed (Step.shuts_down {g} work ended b) i = shutdown-IsServed work ended b g i
  Step-IsServed (Step.works {g} p e) i = carry g.live g (record g { process = p }) refl e refl i

  -- Whatever a process does, as long as no Boot overlaps a Shutdown: an engine that is live has its
  -- handle in the store, the hooks are wired and the pool has been started.
  pub reach-IsServed : {g : Global H X} → Reach g → IsServed g.live g
  reach-IsServed (Reach.begins n) = rw n tt
  reach-IsServed (Reach.next r s) = Step-IsServed s (reach-IsServed r)
