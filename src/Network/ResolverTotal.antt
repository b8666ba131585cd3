-- ===== src/Network/ResolverTotal.antt =====
-- The name resolution of src/drivers/network.c reads inside the message only, whatever the message holds.
use Prim.Native.Nat.{bit_and}
use heat_os.Prelude.{
  ℕ, zero, suc, ◌+◌, ◌%◌, ◌≤◌, ◌<◌, ◌≡◌, refl, Bool, true, false, Option, none, some, List, ltb,
  leb, ◌==◌, ◌&&◌, ◌||◌, not, arith, length, Bool-cases, inl, inr, ltb-false, ltb→lt, leb-false,
  ==→eq,
}
use heat_os.Network.{Dns}
use heat_os.Prelude.{◌>>=◌, byte, slice}
use heat_os.Network.Bytes.{rd16be}
use heat_os.Prelude.{Gives, Any, bind-Gives, if-Gives, byte-Gives, slice-Gives}
use heat_os.Network.Total.{rd16be-Gives}
use heat_os.Network.Resolver.{
  Skip, fail, end, label, skip_step, resume, skip_from, dns_skip_name, skip_questions, find_address,
  with_address, read_reply, handle_dns_payload, no_ip,
}

-- An offset that a routine leaves, if it leaves one, is inside the message or at its end.
abbrev pub IsWithin : ℕ → Option ℕ → Type 0
IsWithin n none = Unit
IsWithin n (some off) = off ≤ n

abbrev StaysWithin : ℕ → Skip → Type 0
StaysWithin n fail = Unit
StaysWithin n (end off) = off ≤ n
StaysWithin n (label off) = off ≤ n

skip_step-StaysWithin : (n off len : ℕ) → n < 65536 → off < n → StaysWithin n (skip_step n off len)
unfolding skip_step
skip_step-StaysWithin n off len small inside = elim (Bool-cases (len == 0)) [
  | inl e ↦ rw e (omega arith)
  | inr e ↦ rw e (elim (Bool-cases (bit_and len 0xC0 == 0xC0)) [
    | inl pointer ↦ rw pointer (elim (Bool-cases (leb n ((off + 1) % 65536))) [
      | inl last ↦ rw last tt
      | inr more ↦ let lt = leb-false _ _ more in rw more (omega arith)
    ])
    | inr plain ↦ rw plain (elim (Bool-cases (bit_and len 0xC0 == 0)) [
      | inl short ↦ rw short (elim (Bool-cases (ltb n ((off + 1 + len) % 65536))) [
        | inl past ↦ rw past tt
        | inr fits ↦ rw fits (ltb-false _ _ fits)
      ])
      | inr odd ↦ rw odd tt
    ])
  ])
]

resume-IsWithin :
    (n : ℕ) (k : ℕ → Option (Option ℕ)) (s : Skip)
    → StaysWithin n s
    → ((off : ℕ) → off ≤ n → Gives (IsWithin n) (k off))
    → Gives (IsWithin n) (resume k s)
unfolding resume
resume-IsWithin n k fail h go = tt
resume-IsWithin n k (end off) h go = h
resume-IsWithin n k (label off) h go = go off h

abbrev IsAddress : Option (List ℕ) → Type 0
IsAddress none = Unit
IsAddress (some ip) = length ip ≡ 4

-- The reply kept is an address of four bytes.
abbrev pub HasIp : Dns → Type 0
HasIp d = length d.reply_ip ≡ 4

module _ (msg : List ℕ) (n : ℕ) (le : n ≤ length msg) (small : n < 65000) where
  skip_from-IsWithin : (rounds off : ℕ) → off ≤ n → Gives (IsWithin n) (skip_from rounds msg n off)
  unfolding skip_from
  skip_from-IsWithin zero off h = tt
  skip_from-IsWithin (suc rounds) off h =
      if-Gives (IsWithin n) (ltb off n) _ _
        (λ inside.
          let lt = ltb→lt off n inside in
          bind-Gives (IsWithin n) Any (byte msg off) _ (byte-Gives msg off (omega arith)) (λ len u.
            resume-IsWithin n (λ next. skip_from rounds msg n next) (skip_step n off len)
              (skip_step-StaysWithin n off len (omega arith) lt)
              (λ next within. skip_from-IsWithin rounds next within)))
        (λ outside. tt)

  pub dns_skip_name-IsWithin : (off : ℕ) → off ≤ n → Gives (IsWithin n) (dns_skip_name msg n off)
  unfolding dns_skip_name
  dns_skip_name-IsWithin off h = skip_from-IsWithin (n + 1) off h

  skip_questions-IsWithin :
      (count off : ℕ) → off ≤ n → Gives (IsWithin n) (skip_questions count msg n off)
  unfolding skip_questions
  skip_questions-IsWithin zero off h = h
  skip_questions-IsWithin (suc count) off h =
      bind-Gives (IsWithin n) (IsWithin n) (dns_skip_name msg n off) _
        (dns_skip_name-IsWithin off h)
        (elim [
          | none ↦ λ u. tt
          | some o ↦ λ within.
              if-Gives (IsWithin n) (ltb n ((o + 4) % 65536)) _ _ (λ past. tt)
                (λ fits. skip_questions-IsWithin count ((o + 4) % 65536) (ltb-false _ _ fits))
        ])

  address_end :
      (a b : Bool) (o rdlen : ℕ)
      → o ≤ n
      → (a && b && (rdlen == 4)) ≡ true
      → ((o + 10) % 65536 + rdlen) % 65536 ≤ n
      → (o + 10) % 65536 + 4 ≤ n
  address_end true true o rdlen h four inside = let e = ==→eq rdlen 4 four in omega arith
  address_end true false o rdlen h four inside = absurd (ground arith)
  address_end false b o rdlen h four inside = absurd (ground arith)

  taken :
      (at : ℕ) → at + 4 ≤ n → Gives IsAddress (slice at 4 msg >>= λ address. some (some address))
  taken at h =
      bind-Gives IsAddress (λ ip. length ip ≡ 4) (slice at 4 msg) _
        (slice-Gives at 4 msg (omega arith)) (λ ip e. e)

  find_address-IsAddress :
      (count off : ℕ) → off ≤ n → Gives IsAddress (find_address count msg n off)
  unfolding find_address
  find_address-IsAddress zero off h = tt
  find_address-IsAddress (suc count) off h =
      bind-Gives IsAddress (IsWithin n) (dns_skip_name msg n off) _ (dns_skip_name-IsWithin off h)
        (elim [
          | none ↦ λ u. tt
          | some o ↦ λ within.
              if-Gives IsAddress (ltb n ((o + 10) % 65536)) _ _ (λ past. tt)
                (λ fits.
                  let record_end = ltb-false _ _ fits in
                  bind-Gives IsAddress Any (rd16be msg o) _ (rd16be-Gives msg o (omega arith))
                    (λ type t.
                      bind-Gives IsAddress Any (rd16be msg (o + 2)) _
                        (rd16be-Gives msg (o + 2) (omega arith))
                        (λ class_code c.
                          bind-Gives IsAddress Any (rd16be msg (o + 8)) _
                            (rd16be-Gives msg (o + 8) (omega arith))
                            (λ rdlen r.
                              if-Gives IsAddress (ltb n (((o + 10) % 65536 + rdlen) % 65536)) _ _
                                (λ past. tt)
                                (λ inside.
                                  if-Gives IsAddress
                                    ((type == 1) && (class_code == 1) && (rdlen == 4)) _ _
                                    (λ yields. taken ((o + 10) % 65536) (
                                      address_end (type == 1) (class_code == 1) o rdlen within
                                        yields (ltb-false _ _ inside)))
                                    (λ other.
                                      find_address-IsAddress count
                                        (((o + 10) % 65536 + rdlen) % 65536)
                                        (ltb-false _ _ inside)))))))
        ])

  with_address-HasIp :
      (d : Dns) (found : Option (List ℕ)) → HasIp d → IsAddress found → HasIp (with_address d found)
  unfolding with_address
  with_address-HasIp d none h e = h
  with_address-HasIp d (some ip) h e = e

  read_reply-HasIp :
      (flags qdcount ancount : ℕ) (d : Dns)
      → 12 ≤ n
      → HasIp d
      → Gives HasIp (read_reply msg n flags qdcount ancount d)
  unfolding read_reply
  read_reply-HasIp flags qdcount ancount d header h =
      bind-Gives HasIp (IsWithin n) (skip_questions qdcount msg n 12) _
        (skip_questions-IsWithin qdcount 12 header)
        (elim [
          | none ↦ λ u. with_address-HasIp d none h tt
          | some off ↦ λ within.
              if-Gives HasIp (bit_and flags 0x000F == 0) _ _
                (λ ok.
                  bind-Gives HasIp IsAddress (find_address ancount msg n off) _
                    (find_address-IsAddress ancount off within)
                    (λ found e. with_address-HasIp d found h e))
                (λ error. with_address-HasIp d none h tt)
        ])

  pub handle_dns_payload-HasIp :
      (src_port dst_port : ℕ) (d : Dns)
      → HasIp d
      → Gives HasIp (handle_dns_payload msg n src_port dst_port d)
  unfolding handle_dns_payload
  handle_dns_payload-HasIp src_port dst_port d h =
      if-Gives HasIp
        (not d.waiting || not (src_port == 53) || not (dst_port == d.expected_src_port)) _ _
        (λ other. h)
        (λ ours.
          if-Gives HasIp (ltb n 12) _ _ (λ short. h)
            (λ long.
              let header = ltb-false _ _ long in
              bind-Gives HasIp Any (rd16be msg 0) _ (rd16be-Gives msg 0 (omega arith)) (λ id i.
                bind-Gives HasIp Any (rd16be msg 2) _ (rd16be-Gives msg 2 (omega arith)) (λ flags f.
                  bind-Gives HasIp Any (rd16be msg 4) _ (rd16be-Gives msg 4 (omega arith))
                    (λ qdcount q.
                      bind-Gives HasIp Any (rd16be msg 6) _ (rd16be-Gives msg 6 (omega arith))
                        (λ ancount a.
                          if-Gives HasIp (not (id == d.expected_id) || (bit_and flags 0x8000 == 0))
                            _ _ (λ other. h)
                            (λ ours.
                              read_reply-HasIp flags qdcount ancount
                                (record d { reply_has_a = false; reply_ip = no_ip }) header
                                refl)))))))
