-- ===== src/Stream/Short.antt =====
-- Reads past the end of the data.
use clib.Common.{ℕ, ltb, if◌then◌else◌}
use clib.Stream.{Stream, Error, end_of_stream, null_pointer}

-- What a read answers at the end of the stream.
abbrev at_end : ℕ → Error
at_end level = if ltb 0 level then end_of_stream else null_pointer
