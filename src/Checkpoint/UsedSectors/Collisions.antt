-- ===== src/Checkpoint/UsedSectors/Collisions.antt =====
-- What `check_collision` says.
use android_system_vold.Common.{ℕ, ◌<◌, ◌≡◌, some, Bool, true, arith}
use android_system_vold.OrderedMap.{floor}
use android_system_vold.OrderedMap.Floor.{floor-KeyIn}
use android_system_vold.Checkpoint.UsedSectors.{UsedSectors, check_collision}
use android_system_vold.Checkpoint.UsedSectors.Marks.{IsValid}

-- A range that is not empty always collides, whether or not a sector of it is used: the second
-- iterator is moved back together with the first, and so stands at or before the start.
pub check_collision_always :
    (m : UsedSectors) (start end : ℕ) {e : ℕ × Bool}
    → IsValid m
    → floor start m ≡ some e
    → start < end
    → check_collision m start end ≡ some true
unfolding check_collision
check_collision_always m start end v f h = ground (arith, floor-KeyIn 0 start m v.ordered)
