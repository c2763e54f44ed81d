-- ===== src/Channel/Assign.antt =====
-- Move assignments to the members of `RingChannel` (include/shm_ipc/ring_channel.hpp).
use shm_cpp.Common.{ℕ, some, ◌++◌}
use shm_cpp.Fds.{Process, reset}

unfoldable pub write_memfd : ℕ → Process → Process
write_memfd fd p = record p {
  closed = p.closed ++ reset p.ch.write_memfd;
  ch = record (p.ch) { write_memfd = some fd };
}

unfoldable pub read_memfd : ℕ → Process → Process
read_memfd fd p = record p {
  closed = p.closed ++ reset p.ch.read_memfd;
  ch = record (p.ch) { read_memfd = some fd };
}

unfoldable pub notify_write_efd : ℕ → Process → Process
notify_write_efd fd p = record p {
  closed = p.closed ++ reset p.ch.notify_write_efd;
  ch = record (p.ch) { notify_write_efd = some fd };
}

unfoldable pub notify_read_efd : ℕ → Process → Process
notify_read_efd fd p = record p {
  closed = p.closed ++ reset p.ch.notify_read_efd;
  ch = record (p.ch) { notify_read_efd = some fd };
}

unfoldable pub write_region : ℕ → Process → Process
write_region addr p = record p {
  unmapped = p.unmapped ++ reset p.ch.write_region;
  ch = record (p.ch) { write_region = some addr };
}

unfoldable pub read_region : ℕ → Process → Process
read_region addr p = record p {
  unmapped = p.unmapped ++ reset p.ch.read_region;
  ch = record (p.ch) { read_region = some addr };
}
