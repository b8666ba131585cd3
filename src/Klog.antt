-- ===== src/Klog.antt =====
-- src/kernel/klog.c, the kernel log: a ring of the last 8192 characters that were logged.
pub mod Record
pub mod Ring
mod Tests
use heat_os.Prelude.{
  ℕ, zero, suc, ◌+◌, ◌-◌, ◌%◌, ◌^◌, Bool, Option, none, some, List, [], ◌∷◌, ◌++◌, ltb, ◌==◌,
  if◌then◌else◌, update, add32, length,
}
use heat_os.CString.Digits.{utoa}
use heat_os.Serial.{Serial, serial_putc, serial_write}

abbrev pub capacity : ℕ
capacity = 8192

-- The four statics of klog.c.
pub record Klog : Type 0 where
  pub ring : ℕ → ℕ
  pub head : ℕ
  pub size : ℕ
  pub lines : ℕ

-- The levels; `other` is a value that is none of them.
pub data Level : Type 0 where
  emerg alert crit err warn notice info debug other : Level

unfoldable pub klog_level_char : Level → ℕ
klog_level_char emerg = b'0'
klog_level_char alert = b'1'
klog_level_char crit = b'2'
klog_level_char err = b'3'
klog_level_char warn = b'4'
klog_level_char notice = b'5'
klog_level_char info = b'6'
klog_level_char debug = b'7'
klog_level_char other = b'?'

unfoldable pub klog_ring_putc : ℕ → Klog → Klog
klog_ring_putc c k = record k {
  ring = update k.ring k.head c;
  head = add32 k.head 1 % capacity;
  size = if ltb k.size capacity then add32 k.size 1 else k.size;
}

unfoldable pub klog_ring_puts : List ℕ → Klog → Klog
klog_ring_puts [] k = k
klog_ring_puts (c ∷ s) k = klog_ring_puts s (klog_ring_putc c k)

-- The loop of `klog_append`, with `room` places left before the terminator's.
unfoldable pub append_loop : ℕ → List ℕ → List ℕ
append_loop room [] = []
append_loop zero (c ∷ src) = []
append_loop (suc room) (c ∷ src) = c ∷ append_loop room src

unfoldable pub klog_append : List ℕ → ℕ → List ℕ → List ℕ
klog_append dst cap src = if cap == 0 then dst else dst ++ append_loop (cap - (length dst + 1)) src

unfoldable pub klog_init : Klog → Klog
klog_init k = record { ring = λ i. 0; head = 0; size = 0; lines = 0 }

unfoldable pub klog_clear : Klog → Klog
klog_clear k = record k { ring = λ i. 0; head = 0; size = 0 }

-- `if (!subsys || !*subsys) subsys = "core"`
unfoldable pub subsys_name : Option (List ℕ) → List ℕ
subsys_name none = b'c' ∷ b'o' ∷ b'r' ∷ b'e' ∷ []
subsys_name (some []) = b'c' ∷ b'o' ∷ b'r' ∷ b'e' ∷ []
subsys_name (some (c ∷ s)) = c ∷ s

-- `if (!msg) msg = ""`
unfoldable pub message : Option (List ℕ) → List ℕ
message none = []
message (some m) = m

-- The characters of one record, put one after another.
unfoldable pub put_record : ℕ → List ℕ → List ℕ → List ℕ → Klog → Klog
unfolding klog_ring_puts
put_record level_c seq subsys msg k =
    let k =
      klog_ring_putc b' ' (klog_ring_putc b'>' (klog_ring_putc level_c (klog_ring_putc b'<' k))) in
    let k =
      klog_ring_putc b' ' (klog_ring_putc b']' (klog_ring_puts seq (klog_ring_putc b'[' k))) in
    let k =
      klog_ring_putc b' ' (klog_ring_putc b']' (klog_ring_puts subsys (klog_ring_putc b'[' k))) in
    klog_ring_putc b'\n' (klog_ring_puts msg k)

-- The same characters for the serial line.
unfoldable pub send_record : (ℕ → Bool) → ℕ → List ℕ → List ℕ → List ℕ → Serial → Serial
send_record tx level_c seq subsys msg s =
    let s = serial_putc tx b'<' s in
    let s = serial_putc tx level_c s in
    let s = serial_putc tx b' ' (serial_putc tx b'>' s) in
    let s = serial_write tx seq (serial_putc tx b'[' s) in
    let s = serial_putc tx b' ' (serial_putc tx b']' s) in
    let s = serial_write tx subsys (serial_putc tx b'[' s) in
    let s = serial_putc tx b' ' (serial_putc tx b']' s) in
    serial_putc tx b'\n' (serial_write tx msg s)

unfoldable pub klog_log :
    (ℕ → Bool) → Level → Option (List ℕ) → Option (List ℕ) → Klog × Serial → Klog × Serial
klog_log tx level subsys msg (k, s) =
    let lines = add32 k.lines 1 in
    let seq = utoa lines 10 in
    let c = klog_level_char level in
    let name = subsys_name subsys in
    let k' = put_record c seq name (message msg) (record k { lines = lines }) in
    let s' = send_record tx c seq name (message msg) s in (k', if s.ready then s' else s)

-- `line[0] = '\0'`, and the prefix if there is one.
unfoldable pub start_line : Option (List ℕ) → List ℕ
start_line none = []
start_line (some p) = klog_append [] 96 p

-- `if (line[0]) klog_append(line, sizeof(line), " ")`
unfoldable pub add_space : List ℕ → List ℕ
add_space [] = []
add_space (c ∷ line) = klog_append (c ∷ line) 96 (b' ' ∷ [])

-- The line that `klog_log_u32` builds in `char line[96]`.
unfoldable pub u32_line : Option (List ℕ) → ℕ → ℕ → List ℕ
u32_line prefix value base =
    let hex = base == 16 in
    let line = add_space (start_line prefix) in
    let line = if hex then klog_append line 96 (b'0' ∷ b'x' ∷ []) else line in
    klog_append line 96 (utoa value (if hex then 16 else 10))

unfoldable pub klog_log_u32 :
    (ℕ → Bool) → Level → Option (List ℕ) → Option (List ℕ) → ℕ → ℕ → Klog × Serial → Klog × Serial
klog_log_u32 tx level subsys prefix value base ks =
    klog_log tx level subsys (some (u32_line prefix value base)) ks

-- The loop of `klog_read` from index `i` of `out`, `n` rounds before its end.
unfoldable pub read_loop : (ℕ → ℕ) → ℕ → ℕ → ℕ → List ℕ
read_loop ring start i zero = []
read_loop ring start i (suc n) = ring (add32 start i % capacity) ∷ read_loop ring start (suc i) n

-- The index of the oldest character.
unfoldable pub oldest : Klog → ℕ
oldest k = (add32 k.head capacity + 2 ^ 32 - k.size) % 2 ^ 32 % capacity

-- `klog_read` with an `out` that is no null pointer: the bytes before the NUL that it writes, and
-- `none` where it writes nothing. Its result is their number.
unfoldable pub klog_read : ℕ → Klog → Option (List ℕ)
klog_read max_len k =
    if max_len == 0
    then none
    else if k.size == 0
    then some []
    else some
        (read_loop k.ring (oldest k) 0 (if ltb (max_len - 1) k.size then max_len - 1 else k.size))

unfoldable pub klog_bytes_used : Klog → ℕ
klog_bytes_used k = k.size

unfoldable pub klog_line_count : Klog → ℕ
klog_line_count k = k.lines
