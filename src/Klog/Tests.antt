-- ===== src/Klog/Tests.antt =====
-- Runs of src/kernel/klog.c from an empty log.
use heat_os.Prelude.{
  ◌≡◌, refl, true, none, some, List, [], ◌∷◌, ◌++◌, arith, add32, take, take_last,
}
use heat_os.CString.Digits.{utoa}
use heat_os.Serial.{Serial}
use heat_os.Klog.{
  Klog, warn, info, capacity, klog_level_char, klog_log, klog_read, subsys_name, message, read_loop,
}
use heat_os.Klog.Ring.{IsValid, contents}
use heat_os.Klog.Record.{
  Op, log, clear, run, logged, record_text, run-take_last, klog_log-take_last, klog_read-run,
}

abbrev fresh : Klog
fresh = record { ring = λ i. 0; head = 0; size = 0; lines = 0 }

abbrev line : Serial
line = record { ready = true; reads = 0; sent = [] }

abbrev calls : List Op
calls =
    log info (some (b'm' ∷ b'm' ∷ [])) (some (b'u' ∷ b'p' ∷ []))
    ∷ clear
    ∷ log warn none (some (b'x' ∷ []))
    ∷ []

fresh-IsValid : IsValid fresh
fresh-IsValid = omega arith

run-take_last_example :
    contents (run (λ n. true) calls (fresh, line)).0
    ≡ take_last capacity (logged calls fresh.lines [])
unfolding read_loop
run-take_last_example = run-take_last (λ n. true) calls [] fresh line fresh-IsValid refl

klog_log-take_last_example :
    let k' = (klog_log (λ n. true) info none (some (b'x' ∷ [])) (fresh, line)).0 in
    (contents k'
      ≡ take_last capacity (
          contents fresh
          ++ record_text
              (klog_level_char info)
              (utoa (add32 fresh.lines 1) 10)
              (subsys_name none)
              (message (some (b'x' ∷ [])))))
    × (k'.lines ≡ add32 fresh.lines 1)
    × IsValid k'
klog_log-take_last_example =
    klog_log-take_last (λ n. true) info none (some (b'x' ∷ [])) line fresh-IsValid

klog_read-run_example :
    klog_read 6 (run (λ n. true) calls (fresh, line)).0
    ≡ some (take 5 (take_last capacity (logged calls fresh.lines [])))
klog_read-run_example = klog_read-run (λ n. true) calls 5 fresh line fresh-IsValid refl
