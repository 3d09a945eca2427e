-- ===== src/Lifecycle/Overlap.antt =====
-- A Boot between the parts of a Shutdown, and one after a Shutdown that ran out of time.
use brokr.Common.{String, Option, none, some, ◌≡◌, refl, ap, ◌∙◌, same_refl, arith}
use brokr.Engine.Effects.{Process}
use brokr.Lifecycle.{
  Fault, timed_out, not_booted, Brokr, Global, migration, boot, boot_under, boot_after, is_live,
  release, stop_background, drain, settle, shutdown, shutdown_after,
}

module _ {H X : Type 0} (gorm_migrate : H → X → Option String × X) where
  booted_after :
      (r : Option Fault × X) (b : Brokr H) (g : Global H X)
      → (boot_after gorm_migrate r b g).0 ≡ none
      → ((boot_after gorm_migrate r b g).1.live ≡ some b)
        × ((boot_after gorm_migrate r b g).1.store ≡ b.cfg.db)
  unfolding boot_after
  booted_after (some e, x) b g ok = ground arith
  booted_after (none, x) b g ok = (refl, refl)

  booted :
      (b : Brokr H) (g : Global H X)
      → g.live ≡ none
      → (boot gorm_migrate none b g).0 ≡ none
      → ((boot gorm_migrate none b g).1.live ≡ some b)
        × ((boot gorm_migrate none b g).1.store ≡ b.cfg.db)
  unfolding boot boot_under
  booted b g n =
      rw n (booted_after (migration gorm_migrate b g.process.world) b (record g { live = none }))

  released :
      (a : Brokr H) (g : Global H X)
      → g.live ≡ some a
      → release a g ≡ (none, record g { live = none })
  unfolding release is_live
  released a g l = rw (ap (λ l. is_live l a) l ∙ same_refl a.address) refl

  -- Where a Boot of another engine succeeds after the live engine's Shutdown has reset `live`, and the
  -- drain of that Shutdown then ends, whatever the work under way has done to the process, both calls have returned nil and the booted engine is live without
  -- a handle in the store.
  pub overlapped_boot :
      (work : Process X → Process X) (a b : Brokr H) (g : Global H X)
      → g.live ≡ some a
      → (boot gorm_migrate none b (release a g).1).0 ≡ none
      → let h =
          settle none (drain work (stop_background (boot gorm_migrate none b (release a g).1).1)) in
        ((release a g).0 ≡ none) × (h.0 ≡ none) × (h.1.live ≡ some b) × (h.1.store ≡ none)
  unfolding settle drain stop_background
  overlapped_boot work a b g l =
      rw (released a g l) λ ok. (refl, refl, (booted b (record g { live = none }) refl ok).0, refl)

  -- A Shutdown whose context is done before the drain ends returns an error and leaves the handle, a
  -- further Shutdown of the engine returns an error, and a Boot of another engine that succeeds then
  -- replaces the handle.
  pub timed_out_replaced :
      (work : Process X → Process X) (a b : Brokr H) (g : Global H X) (late : String)
      (ended : Option String)
      → g.live ≡ some a
      → let h = (shutdown work (some late) a g).1 in
        (boot gorm_migrate none b h).0 ≡ none
        → ((shutdown work (some late) a g).0 ≡ some (timed_out late))
          × (h.store ≡ g.store)
          × (shutdown work ended a h ≡ (some not_booted, h))
          × ((boot gorm_migrate none b h).1.store ≡ b.cfg.db)
  unfolding shutdown shutdown_after settle drain stop_background
  timed_out_replaced work a b g late ended l = rw (released a g l) λ ok. (
    refl,
    refl,
    refl,
    (booted b (drain work (stop_background (record g { live = none }))) refl ok).1,
  )
