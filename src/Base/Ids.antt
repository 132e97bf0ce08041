-- ===== src/Base/Ids.antt =====
-- Identifiers and instants. A UUID is the number that its 128 bits spell, and uuid.Nil is 0; an
-- instant is a count of nanoseconds, with time.Time's zero value at 0.
use Prim.Native.Nat.{ℕ, ◌*◌}

abbrev pub Uuid : Type 0
Uuid = ℕ

abbrev pub nil_uuid : Uuid
nil_uuid = 0

abbrev pub Time : Type 0
Time = ℕ

abbrev pub second : Time
second = 1000000000

abbrev pub minute : Time
minute = 60 * second

abbrev pub day : Time
day = 1440 * minute
