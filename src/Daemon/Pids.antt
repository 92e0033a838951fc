-- ===== src/Daemon/Pids.antt =====
-- Ports and pids on the Unix socket between the packet hunter and the daemon: the bytes of a
-- `uint16_t` and of a `pid_t`, written and read whole on one machine.
use hut_karish.Prelude.{
  ℕ, ◌-◌, ◌^◌, ◌<◌, ◌≡◌, ap, ◌∙◌, List, Option, none, some, arith, ltb, ◌==◌, if◌then◌else◌, length,
}
use hut_karish.Prelude.Int.{ℤ, pos, negsuc}
use hut_karish.Prelude.Bytes.{word_16, word_32, read_16, read_32, digits_16, digits_32}

-- The bit pattern of a 32-bit integer.
abbrev pub pattern_of : ℤ → ℕ
pattern_of (pos n) = n
pattern_of (negsuc n) = 2 ^ 32 - 1 - n

abbrev pub of_pattern : ℕ → ℤ
of_pattern w = if ltb w (2 ^ 31) then pos w else negsuc (2 ^ 32 - 1 - w)

-- The value fits `pid_t`.
abbrev pub FitsPid : ℤ → Type 0
FitsPid (pos n) = n < 2 ^ 31
FitsPid (negsuc n) = n < 2 ^ 31

unfoldable pub port_bytes : ℕ → List ℕ
port_bytes port = word_16 port

unfoldable pub pid_bytes : ℤ → List ℕ
pid_bytes pid = word_32 (pattern_of pid)

-- A read of `sizeof(port)` bytes: `none` is an error, and any other number of bytes than two is a
-- failure.
unfoldable pub receive_port : Option (List ℕ) → Option ℕ
receive_port none = none
receive_port (some bytes) = if length bytes == 2 then some (read_16 bytes 0) else none

-- A read of `sizeof(pid)` bytes.
unfoldable pub receive_pid_bytes : Option (List ℕ) → Option ℤ
receive_pid_bytes none = none
receive_pid_bytes (some bytes) =
    if length bytes == 4 then some (of_pattern (read_32 bytes 0)) else none

pub receive_port-port_bytes :
    (port : ℕ) → port < 2 ^ 16 → receive_port (some (port_bytes port)) ≡ some port
unfolding receive_port port_bytes word_16 read_16
receive_port-port_bytes port h = ap some (digits_16 port h)

of_pattern-pattern_of : (pid : ℤ) → FitsPid pid → of_pattern (pattern_of pid) ≡ pid
of_pattern-pattern_of (pos n) h = ground arith
of_pattern-pattern_of (negsuc n) h = ground arith

pattern_of-lt : (pid : ℤ) → FitsPid pid → pattern_of pid < 2 ^ 32
pattern_of-lt (pos n) h = omega arith
pattern_of-lt (negsuc n) h = omega arith

pub receive_pid_bytes-pid_bytes :
    (pid : ℤ) → FitsPid pid → receive_pid_bytes (some (pid_bytes pid)) ≡ some pid
unfolding receive_pid_bytes pid_bytes word_32 read_32
receive_pid_bytes-pid_bytes pid h =
    ap (λ w. some (of_pattern w)) (digits_32 (pattern_of pid) (pattern_of-lt pid h))
    ∙ ap some (of_pattern-pattern_of pid h)
