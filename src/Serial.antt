-- ===== src/Serial.antt =====
-- src/drivers/serial.c, the COM1 output. The hardware is a parameter: `tx n` is bit 5 of the n-th
-- value that the line status port gives.
use heat_os.Prelude.{ℕ, zero, suc, Bool, true, false, List, [], ◌∷◌, ◌++◌, ◌==◌, if◌then◌else◌}

-- `g_serial_ready`, the reads of the status port so far, and the bytes given to the data port.
pub record Serial : Type 0 where
  pub ready : Bool
  pub reads : ℕ
  pub sent : List ℕ

-- `serial_init`; the register writes that set the line up are left out.
pub serial_init : Serial → Serial
serial_init s = record s { ready = true }

-- The reads that the guard of `serial_putc` lets fail before it gives up.
pub wait_rounds : ℕ
wait_rounds = 1000001

module _ (tx : ℕ → Bool) where
  -- The wait loop: whether the line became ready, and the count of reads after it.
  unfoldable pub wait_tx : ℕ → ℕ → Bool × ℕ
  wait_tx zero n = (false, n)
  wait_tx (suc rounds) n = elim (tx n) [ true ↦ (true, suc n) | false ↦ wait_tx rounds (suc n) ]

  -- The wait and the `outb` of one byte.
  unfoldable pub send_byte : ℕ → Serial → Serial
  send_byte c s =
      let (up, n) = wait_tx wait_rounds s.reads in
      if up then record s { reads = n; sent = s.sent ++ (c ∷ []) } else record s { reads = n }

  -- A line feed is sent behind a carriage return.
  unfoldable pub serial_putc : ℕ → Serial → Serial
  serial_putc c s = if s.ready then send_byte c (if c == b'\n' then send_byte b'\r' s else s) else s

  unfoldable pub serial_write : List ℕ → Serial → Serial
  serial_write [] s = s
  serial_write (c ∷ cs) s = serial_write cs (serial_putc c s)
