-- ===== src/Tests/Booting.antt =====
-- Sessions of a process at concrete engines, and the theorems on them.
use brokr.Common.{ℕ, suc, String, true, false, Option, none, some, [], ◌∷◌, ◌≡◌, ◌≢◌, refl, trim}
use brokr.Engine.Effects.{Process}
use brokr.Lifecycle.{
  Config, Brokr, Global, made, new, normalize, migrate, boot, release, stop_background, drain,
  settle, is_live, shutdown,
}
use brokr.Lifecycle.Sessions.{IsServed, Step, Reach, reach-IsServed}
use brokr.Lifecycle.Overlap.{overlapped_boot}

-- Handles are texts, and the world counts migrations; the handle "broken" cannot be migrated.
abbrev gorm_migrate : String → ℕ → Option String × ℕ
gorm_migrate db n = (none, suc n)

abbrev config : Config String
config = record { db = some "main"; route_prefix = "api/v1/"; auto_migrate = true }

abbrev engine_a : Brokr String
engine_a = record { address = 1; cfg = record config { route_prefix = "/api/v1" } }

abbrev engine_b : Brokr String
engine_b = record {
  address = 2;
  cfg = record { db = some "spare"; route_prefix = ""; auto_migrate = false };
}

abbrev idle : Global String ℕ
idle = record {
  process = record {
    world = 0;
    timers = ("a", record { delay = 900; event = "timeout" } ∷ []) ∷ [];
    do_activities = [];
    jobs = [];
    published = [];
    auto_joins = [];
    dispatched = [];
    hooks_wired = false;
  };
  store = none;
  live = none;
  pool_started = false;
}

new_a : new 1 config ≡ made engine_a
unfolding new normalize trim
new_a = refl

abbrev booted : Global String ℕ
booted = (boot gorm_migrate none engine_a idle).1

booted_live : booted.live ≡ some engine_a
unfolding boot migrate
booted_live = refl

booted_reached : Reach gorm_migrate booted
booted_reached = Reach.next (Reach.begins refl) (Step.boots none 1 config new_a)

reach-IsServed_example : IsServed booted.live booted
reach-IsServed_example = reach-IsServed gorm_migrate booted_reached

-- What is under way during the drain arms a timer.
abbrev arming : Process ℕ → Process ℕ
arming p = record p { timers = ("b", record { delay = 60; event = "expire" } ∷ []) ∷ p.timers }

-- It is left after the Shutdown has returned nil.
left_armed : (shutdown arming none engine_a booted).1.process.timers ≢ []
unfolding shutdown release is_live stop_background drain settle boot migrate
left_armed = λ e. cc

booted_again : (boot gorm_migrate none engine_b (release engine_a booted).1).0 ≡ none
unfolding boot migrate release
booted_again = refl

overlapped_boot_example :
    let h = settle none (
      drain arming
        (stop_background (boot gorm_migrate none engine_b (release engine_a booted).1).1)) in
    ((release engine_a booted).0 ≡ none)
    × (h.0 ≡ none)
    × (h.1.live ≡ some engine_b)
    × (h.1.store ≡ none)
overlapped_boot_example =
    overlapped_boot gorm_migrate arming engine_a engine_b booted booted_live booted_again
