-- ===== src/Discovery/Zombie.antt =====
-- Longer without traffic is never better.
use secure_api.Prelude.{ℕ, ◌≤◌, some, arith}
use secure_api.Models.{ZombieStatus, active, declining, idle, zombie, dead, retired_status}
use secure_api.Discovery.{ZombieSettings, classify_zombie_status}

-- how far a status is from being in use
pub severity : ZombieStatus → ℕ
severity active = 0
severity declining = 1
severity idle = 2
severity zombie = 3
severity dead = 4
severity retired_status = 0

-- With the same request counts, an endpoint that was last used earlier, looked at as late or later,
-- never has a status nearer to being in use.
pub classify_zombie_status_mono :
    (cfg : ZombieSettings) (now now' earlier last r14 r30 : ℕ)
    → now ≤ now'
    → earlier ≤ last
    → severity (classify_zombie_status cfg now (some last) r14 r30)
      ≤ severity (classify_zombie_status cfg now' (some earlier) r14 r30)
unfolding classify_zombie_status severity
classify_zombie_status_mono cfg now now' earlier last r14 r30 later before = ground arith
