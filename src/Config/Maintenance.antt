-- ===== src/Config/Maintenance.antt =====
-- `is_active` of `MaintenanceWindowConfig` in src/config/types.rs.
use s.Common.{
  ℕ, Bool, false, ◌&&◌, ◌||◌, List, [], ◌∷◌, Option, none, some, ltb, leb, if◌then◌else◌, Text, map,
  codes,
}
use s.Common.Chars.{split, same_text}
use s.Acl.Port.{split_once}
use s.Acl.Pattern.{to_lower}
use s.Config.Hours.{Moment, weekday_name, now_mins, parse_hhmm}

pub record MaintenanceWindowConfig : Type 0 where
  pub schedule : Text
  pub timezone : Text
  pub message : Text
  pub disconnect_existing : Bool

abbrev inside : Option ℕ → Option ℕ → ℕ → Bool
inside (some s) (some e) now = leb s now && ltb now e
inside _ _ now = false

abbrev in_parts : List Text → ℕ → Bool
in_parts (s ∷ e ∷ []) now = inside (parse_hhmm s) (parse_hhmm e) now
in_parts _ now = false

-- `to_lowercase` on the names of days, which are ASCII.
abbrev right_day : Text → Moment → Bool
right_day day_spec now =
    same_text day_spec (codes "daily") || same_text day_spec (weekday_name now.weekday)

abbrev active_at : Option (Text × Text) → Moment → Bool
active_at none now = false
active_at (some (day_spec, time_range)) now =
    if right_day (map to_lower day_spec) now
    then in_parts (split b'-' time_range) (now_mins now)
    else false

unfoldable pub is_active : MaintenanceWindowConfig → Moment → Bool
unfolding split_once to_lower split parse_hhmm weekday_name
is_active w now = active_at (split_once b' ' w.schedule) now
