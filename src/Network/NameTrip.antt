-- ===== src/Network/NameTrip.antt =====
-- What `build_dns_query` of src/drivers/network.c writes, `dns_skip_name` reads.
use Prim.Native.Nat.{bit_and}
use heat_os.Prelude.{
  ℕ, zero, suc, ◌+◌, ◌-◌, ◌%◌, ◌/◌, ◌≤◌, ◌<◌, ◌≡◌, refl, ap, true, some, List, ltb, ◌==◌, arith,
  length, ==-false, ltb-false, ==→eq, subst, update, update_self, update_ne, ◌∙◌, passes, passes-at,
  ne→==-false, lt→ltb, le→ltb-false,
}
use heat_os.Prelude.{byte}
use heat_os.Prelude.{Leaves, if-Leaves, bind-Leaves}
use heat_os.Network.Client.{bytes_from}
use heat_os.Network.Names.{
  Labels, done, more, Labels-le, Labels-update, Labels-close, IsBuilder, Ends, build_labels-Ends,
}
use heat_os.Network.Resolver.{
  Builder, put16, open_label, build_labels, end_query, skip_spaces, query_start, build_dns_query,
  skip_step, label, end, resume, skip_from, dns_skip_name,
}

byte-bytes_from :
    (n i at : ℕ) (out : ℕ → ℕ) → i < n → byte (bytes_from n at out) i ≡ some (out (at + i))
unfolding byte bytes_from
byte-bytes_from zero i at out h = absurd (omega arith)
byte-bytes_from (suc n) zero at out h = ap (λ k. some (out k)) (omega arith)
byte-bytes_from (suc n) (suc i) at out h =
    byte-bytes_from n i (at + 1) out (omega arith) ∙ ap (λ k. some (out k)) (omega arith)

low_bits : passes (λ k. bit_and k 0xC0 == 0) 64 ≡ true
unfolding passes
low_bits = refl

skip_step-label :
    (n off len : ℕ)
    → 0 < len
    → len < 64
    → off + 1 + len ≤ n
    → n < 65536
    → skip_step n off len ≡ label (off + 1 + len)
unfolding skip_step
skip_step-label n off len positive short fits small =
    let low : bit_and len 0xC0 ≡ 0 =
      ==→eq _ _ (passes-at (λ k. bit_and k 0xC0 == 0) 64 low_bits len short) in
    let whole : (off + 1 + len) % 65536 ≡ off + 1 + len = omega arith in
    rw (ne→==-false len 0 (λ e. omega arith), low, whole, le→ltb-false n (off + 1 + len) fits) refl

skip_step-end : (n off : ℕ) → skip_step n off 0 ≡ end (off + 1)
unfolding skip_step
skip_step-end n off = refl

module _ (out : ℕ → ℕ) (n : ℕ) (small : n < 65536) where
  byte_at : (i : ℕ) → i < n → byte (bytes_from n 0 out) i ≡ some (out i)
  byte_at i h = byte-bytes_from n i 0 out h ∙ ap (λ k. some (out k)) (omega arith)

  skip_from-Labels :
      (rounds at stop : ℕ)
      → Labels out at stop
      → out stop ≡ 0
      → stop < n
      → stop < at + rounds
      → skip_from rounds (bytes_from n 0 out) n at ≡ some (some (stop + 1))
  unfolding skip_from resume
  skip_from-Labels zero at stop labels ended inside fuel =
      let le = Labels-le at stop labels in absurd (omega arith)
  skip_from-Labels (suc rounds) at stop (done _) ended inside fuel =
      rw (lt→ltb at n inside, byte_at at inside, ended, skip_step-end n at) refl
  skip_from-Labels (suc rounds) at stop (more _ _ positive short rest) ended inside fuel =
      let le = Labels-le (at + 1 + out at) stop rest in
      let before : at < n = omega arith in
      rw
        (
          lt→ltb at n before,
          byte_at at before,
          skip_step-label n at (out at) positive short (omega arith) small,
        )
        (skip_from-Labels rounds (at + 1 + out at) stop rest ended inside (omega arith))

put16-Labels :
    (out : ℕ → ℕ) (at stop i v : ℕ) → stop ≤ i → Labels out at stop → Labels (put16 i v out) at stop
unfolding put16
put16-Labels out at stop i v h labels =
    Labels-update _ at stop (i + 1) (v % 256) (omega arith)
      (Labels-update out at stop i (v / 256 % 256) h labels)

put16_before : (out : ℕ → ℕ) (i v j : ℕ) → j < i → put16 i v out j ≡ out j
unfolding put16
put16_before out i v j h =
    update_ne (update out i (v / 256 % 256)) (i + 1) j (v % 256) (λ e. omega arith)
    ∙ update_ne out i j (v / 256 % 256) (λ e. omega arith)

-- The message that `end_query` gives: the labels from index 12 on, and the empty label behind them.
abbrev IsQuery : ℕ → (ℕ → ℕ) × ℕ → Type 0
IsQuery out_max (out, n) =
    (stop : ℕ) × Labels out 12 stop × (out stop ≡ 0) × (n ≡ stop + 5) × (n ≤ out_max)

end_query-IsQuery :
    (out_max : ℕ) (b : Builder)
    → out_max < 65000
    → Ends out_max b
    → Leaves (IsQuery out_max) (end_query out_max b)
unfolding end_query
end_query-IsQuery out_max b short ends =
    if-Leaves (IsQuery out_max) (b.label_len == 0) _ _ (λ e. tt)
      (λ some_char.
        if-Leaves (IsQuery out_max) (ltb out_max ((b.pos + 5) % 65536)) _ _ (λ e. tt)
          (λ fits.
            let positive = positive_of b.label_len (==-false _ _ some_char) in
            let h = ends positive in
            let room = h.3 in
            let le = ltb-false _ _ fits in
            (
              b.pos,
              put16-Labels _ 12 b.pos (b.pos + 3) 1 (omega arith) (
                  put16-Labels _ 12 b.pos (b.pos + 1) 1 (omega arith) (
                    Labels-update _ 12 b.pos b.pos 0 (omega arith)
                      (Labels-close out_max b h positive))),
              tail_zero (update b.out b.label_len_pos (b.label_len % 256)),
              omega arith,
              omega arith,
            )))
  where
    positive_of : (k : ℕ) → (k ≡ 0 → ⊥) → 0 < k
    positive_of zero ne = absurd (ne refl)
    positive_of (suc k) ne = omega arith

    tail_zero :
        (out : ℕ → ℕ) → put16 (b.pos + 3) 1 (put16 (b.pos + 1) 1 (update out b.pos 0)) b.pos ≡ 0
    tail_zero out =
        put16_before (put16 (b.pos + 1) 1 (update out b.pos 0)) (b.pos + 3) 1 b.pos (omega arith)
        ∙ put16_before (update out b.pos 0) (b.pos + 1) 1 b.pos (omega arith)
        ∙ update_self out b.pos 0

query_start-IsBuilder : (id out_max : ℕ) → 18 ≤ out_max → IsBuilder out_max (query_start id)
unfolding query_start open_label
query_start-IsBuilder id out_max h = (done 12, refl, omega arith, omega arith)

build_dns_query-IsQuery :
    (host : List ℕ) (id out_max : ℕ)
    → out_max < 65000
    → Leaves (IsQuery out_max) (build_dns_query host id out_max)
unfolding build_dns_query
build_dns_query-IsQuery host id out_max short =
    if-Leaves (IsQuery out_max) (ltb out_max 18) _ _ (λ e. tt)
      (λ room.
        if-Leaves (IsQuery out_max) (length (skip_spaces host) == 0) _ _ (λ e. tt)
          (λ e.
            bind-Leaves (IsQuery out_max) (Ends out_max)
              (build_labels out_max (skip_spaces host) (query_start id)) (end_query out_max)
              (build_labels-Ends out_max (skip_spaces host) (query_start id)
                (query_start-IsBuilder id out_max (ltb-false _ _ room)))
              (λ b ends. end_query-IsQuery out_max b short ends)))

-- When `build_dns_query` builds a message of `n` bytes in a buffer shorter than 65,000 bytes, the message fits
-- the buffer, and `dns_skip_name` on it, from the end of the header, stops exactly behind the name, in front of
-- the four bytes of type and class.
pub dns_skip_name-build_dns_query :
    (host : List ℕ) (id out_max : ℕ) (out : ℕ → ℕ) (n : ℕ)
    → out_max < 65000
    → build_dns_query host id out_max ≡ some (out, n)
    → (n ≤ out_max) × (dns_skip_name (bytes_from n 0 out) n 12 ≡ some (some (n - 4)))
unfolding dns_skip_name
dns_skip_name-build_dns_query host id out_max out n short built =
    let query =
      subst (Leaves (IsQuery out_max)) built (build_dns_query-IsQuery host id out_max short) in
    let n_eq = query.3 in
    let le = query.4 in
    let stop_le = Labels-le 12 query.0 query.1 in
    (
      le,
      skip_from-Labels out n (omega arith) (n + 1) 12 query.0 query.1 query.2 (omega arith)
            (omega arith)
          ∙ ap (λ k. some (some k)) (omega arith),
    )
