-- ===== src/Clock.antt =====
-- Instants (time.Time in UTC) and the texts in which the repositories keep them,
-- `Format(time.RFC3339Nano)`, as internal/repository/sqlite compares them in its SQL.
--
-- An instant is a number of nanoseconds since 0001-01-01T00:00:00Z, so that Go's zero time is 0.
-- The layout writes the seconds in a prefix of fixed width, whose order as a text is that of the
-- seconds in the years 1 to 9999, and then the fraction with its trailing zeros dropped, or nothing
-- where it is 0, and a Z. So two texts compare by the seconds, and then by `suffix`.
mod Defs
mod Order
pub use Defs.{Time, second, hour, is_zero, unix_epoch}
unfoldable pub use Defs.{suffix, text_leb, stamp_leb}
pub use Order.*
