-- ===== src/Context/Truncating.antt =====
-- How much of an output `truncate` shows.
use Prim.Native.Char.{Char}
