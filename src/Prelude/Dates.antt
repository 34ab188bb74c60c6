-- ===== src/Prelude/Dates.antt =====
-- `datetime.date` as its proleptic ordinal (`toordinal`): the order of dates is that of ordinals, and
-- adding days adds to the ordinal.
use zero_shadow_autonomous_a.Prelude.Base.{ℕ, ◌+◌, Option, none, some, ltb, if◌then◌else◌}

-- `date.max`, the 31st of December 9999.
abbrev pub max_ordinal : ℕ
max_ordinal = 3652059

-- `day + timedelta(days=n)`: none is the OverflowError past `date.max`.
unfoldable pub add_days : ℕ → ℕ → Option ℕ
add_days day n = if ltb max_ordinal (day + n) then none else some (day + n)
