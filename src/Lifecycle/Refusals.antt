-- ===== src/Lifecycle/Refusals.antt =====
-- The errors of Boot and Shutdown, and what a Shutdown that drains leaves behind.
use brokr.Common.{String, false, Option, none, some, [], ◌≡◌, refl, ap, ◌∙◌, same, arith}
use brokr.Engine.Effects.{Process}
use brokr.Lifecycle.{
  Fault, context, another_booted, not_booted, Brokr, Global, boot, boot_under, boot_after, is_live,
  release, shutdown, shutdown_after,
}

-- What a Boot that fails leaves alone.
pub record Spared {H X : Type 0} (g h : Global H X) : Type 0 where
  pub live : h.live ≡ g.live
  pub hooks : h.process.hooks_wired ≡ g.process.hooks_wired
  pub pool : h.pool_started ≡ g.pool_started
  pub others : (a : Brokr H) → g.live ≡ some a → h ≡ g

module _ {H X : Type 0} (gorm_migrate : H → X → Option String × X) where
  Spared-refl : (g : Global H X) → Spared g g
  Spared-refl g = record { live = refl; hooks = refl; pool = refl; others = λ a e. refl }

  boot_after-Spared :
      (r : Option Fault × X) (b : Brokr H) (g : Global H X) {e : Fault}
      → g.live ≡ none
      → (boot_after gorm_migrate r b g).0 ≡ some e
      → Spared g (boot_after gorm_migrate r b g).1
  unfolding boot_after
  boot_after-Spared (some f, x) b g n h = record {
    live = refl;
    hooks = refl;
    pool = refl;
    others = λ a e. ground arith;
  }
  boot_after-Spared (none, x) b g n h = ground arith

  boot_under-Spared :
      (b : Brokr H) (g : Global H X) {e : Fault}
      → (l : Option (Brokr H)) → g.live ≡ l
      → (boot_under gorm_migrate l b g).0 ≡ some e
      → Spared g (boot_under gorm_migrate l b g).1
  unfolding boot_under
  boot_under-Spared b g none n h = boot_after-Spared _ b g n h
  boot_under-Spared b g (some a) n h = Spared-refl g

  -- A Boot that returns an error leaves `live`, the hooks and the pool as they were; while an engine is
  -- live it leaves the whole state as it was.
  pub boot-Spared :
      (cancelled : Option String) (b : Brokr H) (g : Global H X) {e : Fault}
      → (boot gorm_migrate cancelled b g).0 ≡ some e
      → Spared g (boot gorm_migrate cancelled b g).1
  unfolding boot
  boot-Spared (some e) b g h = Spared-refl g
  boot-Spared none b g h = boot_under-Spared b g g.live refl h

  boot_live :
      (cancelled : Option String) (a b : Brokr H) (g : Global H X)
      → g.live ≡ some a
      → same a.address b.address ≡ false
      → boot gorm_migrate cancelled b g
        ≡ (some (elim cancelled [ none ↦ another_booted | some e ↦ context e ]), g)
  unfolding boot boot_under
  boot_live (some e) a b g l d = refl
  boot_live none a b g l d = ap (λ l. boot_under gorm_migrate l b g) l ∙ rw d refl

  -- While an engine is live, a Boot and a Shutdown of any other return an error and change nothing.
  pub live_excludes :
      (work : Process X → Process X) (cancelled ended : Option String) (a b : Brokr H)
      (g : Global H X)
      → g.live ≡ some a
      → same a.address b.address ≡ false
      → (boot gorm_migrate cancelled b g
          ≡ (some (elim cancelled [ none ↦ another_booted | some e ↦ context e ]), g))
        × (shutdown work ended b g ≡ (some not_booted, g))
  unfolding shutdown shutdown_after release is_live
  live_excludes work cancelled ended a b g l d =
      (boot_live cancelled a b g l d, rw (ap (λ l. is_live l b) l ∙ d) refl)

-- No engine is live, and the process is what the drain has made of one in which nothing was pending.
pub record Closed {H X : Type 0} (work : Process X → Process X) (g h : Global H X) : Type 0 where
  pub none_live : h.live ≡ none
  pub no_handle : h.store ≡ none
  pub pool : h.pool_started ≡ g.pool_started
  pub drained : h.process ≡ work (record g.process { timers = []; do_activities = [] })
  pub shut :
      (later : Process X → Process X) (ended : Option String) (b : Brokr H)
      → shutdown later ended b h ≡ (some not_booted, h)
