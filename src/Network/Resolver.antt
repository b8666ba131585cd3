-- ===== src/Network/Resolver.antt =====
-- Names in the messages of src/drivers/network.c: the query that is built, and the names skipped in a reply.
use Prim.Native.Nat.{bit_and}
use heat_os.Prelude.{
  ℕ, zero, suc, ◌+◌, ◌-◌, ◌%◌, Bool, true, false, Option, none, some, List, [], ◌∷◌, ltb, leb, ◌==◌,
  ◌||◌, ◌&&◌, if◌then◌else◌, length, update, not, ◌/◌,
}
use heat_os.Network.{Dns}
use heat_os.Prelude.{◌>>=◌, byte, slice}
use heat_os.Network.Bytes.{rd16be}

unfoldable pub to_lower_ascii : ℕ → ℕ
to_lower_ascii c = if leb b'A' c && leb c b'Z' then c - b'A' + b'a' else c

unfoldable pub host_char_ok : ℕ → Bool
host_char_ok c =
    if leb b'a' c && leb c b'z'
    then true
    else if leb b'A' c && leb c b'Z'
    then true
    else if leb b'0' c && leb c b'9'
    then true
    else c == b'-'

-- What the loop of `dns_skip_name` does with the length byte `len` at `off`: return, or go on behind the label.
pub data Skip : Type 0 where
  fail : Skip
  end : ℕ → Skip
  label : ℕ → Skip

unfoldable pub skip_step : ℕ → ℕ → ℕ → Skip
skip_step msg_len off len =
    if len == 0
    then end (off + 1)
    else if bit_and len 0xC0 == 0xC0
    then (if leb msg_len ((off + 1) % 65536) then fail else end (off + 2))
    else if bit_and len 0xC0 == 0
    then (if ltb msg_len ((off + 1 + len) % 65536) then fail else label ((off + 1 + len) % 65536))
    else fail

unfoldable pub resume : (ℕ → Option (Option ℕ)) → Skip → Option (Option ℕ)
resume k fail = some none
resume k (end off) = some (some off)
resume k (label off) = k off

-- The loop of `dns_skip_name`, with `rounds` more labels until its guard stops it: the offset behind the name,
-- or `none` for a refusal, in a result that is `none` for a read outside the message.
unfoldable pub skip_from : ℕ → List ℕ → ℕ → ℕ → Option (Option ℕ)
skip_from zero msg msg_len off = some none
skip_from (suc rounds) msg msg_len off =
    if ltb off msg_len
    then (byte msg off >>= λ len.
        resume (λ next. skip_from rounds msg msg_len next) (skip_step msg_len off len))
    else some none

unfoldable pub dns_skip_name : List ℕ → ℕ → ℕ → Option (Option ℕ)
dns_skip_name msg msg_len off = skip_from (msg_len + 1) msg msg_len off

-- The variables of `build_dns_query`, with the buffer `out` as a map from indices.
pub record Builder : Type 0 where
  pub out : ℕ → ℕ
  pub pos : ℕ
  pub label_len_pos : ℕ
  pub label_len : ℕ

unfoldable pub put16 : ℕ → ℕ → (ℕ → ℕ) → ℕ → ℕ
put16 at v out = update (update out at (v / 256 % 256)) (at + 1) (v % 256)

-- A new label begins: its length byte is 0 for now.
unfoldable pub open_label : Builder → Builder
open_label b = record b { out = update b.out b.pos 0; pos = b.pos + 1; label_len_pos = b.pos }

unfoldable pub close_label : Builder → Builder
close_label b = record b { out = update b.out b.label_len_pos (b.label_len % 256); label_len = 0 }

unfoldable pub put_char : ℕ → Builder → Builder
put_char c b = record b {
  out = update b.out b.pos (to_lower_ascii c);
  pos = b.pos + 1;
  label_len = b.label_len + 1;
}

-- The loop of `build_dns_query` over the rest of the host's name.
unfoldable pub build_labels : ℕ → List ℕ → Builder → Option Builder
build_labels out_max [] b = some b
build_labels out_max (c ∷ p) b =
    let closed = close_label b in
    let next_label = build_labels out_max p (open_label closed) in
    let next_char = build_labels out_max p (put_char c b) in
    if c == b'.'
    then (if b.label_len == 0
        then none
        else if length p == 0
        then some closed
        else if leb out_max b.pos
        then none
        else next_label)
    else if not (host_char_ok c)
    then none
    else if leb 63 b.label_len
    then none
    else if leb out_max b.pos
    then none
    else next_char

-- The end of `build_dns_query`: the message and its length.
unfoldable pub end_query : ℕ → Builder → Option ((ℕ → ℕ) × ℕ)
end_query out_max b =
    let out = update b.out b.label_len_pos (b.label_len % 256) in
    let tail = put16 (b.pos + 3) 1 (put16 (b.pos + 1) 1 (update out b.pos 0)) in
    if b.label_len == 0
    then none
    else if ltb out_max ((b.pos + 5) % 65536)
    then none
    else some (tail, (b.pos + 5) % 65536)

unfoldable pub skip_spaces : List ℕ → List ℕ
skip_spaces [] = []
skip_spaces (c ∷ p) = let rest = skip_spaces p in if c == b' ' then rest else c ∷ p

-- The variables before the loop, with the header in `out`.
unfoldable pub query_start : ℕ → Builder
query_start id = open_label (record {
  out = put16 4 1 (put16 2 0x0100 (put16 0 id (λ at. 0)));
  pos = 12;
  label_len_pos = 0;
  label_len = 0;
})

unfoldable pub build_dns_query : List ℕ → ℕ → ℕ → Option ((ℕ → ℕ) × ℕ)
build_dns_query host id out_max =
    let p = skip_spaces host in
    if ltb out_max 18
    then none
    else if length p == 0
    then none
    else (build_labels out_max p (query_start id) >>= end_query out_max)

-- The questions of a reply: the offset behind them, or `none` for a refusal.
unfoldable pub skip_questions : ℕ → List ℕ → ℕ → ℕ → Option (Option ℕ)
skip_questions zero payload len off = some (some off)
skip_questions (suc n) payload len off = dns_skip_name payload len off >>= elim [
  | none ↦ some none
  | some o ↦
      let rest = skip_questions n payload len ((o + 4) % 65536) in
      if ltb len ((o + 4) % 65536) then some none else rest
]

-- The answers of a reply: the first IPv4 address among them.
unfoldable pub find_address : ℕ → List ℕ → ℕ → ℕ → Option (Option (List ℕ))
find_address zero payload len off = some none
find_address (suc n) payload len off = dns_skip_name payload len off >>= elim [
  | none ↦ some none
  | some o ↦
      if ltb len ((o + 10) % 65536)
      then some none
      else (rd16be payload o >>= λ type. rd16be payload (o + 2) >>= λ class_code.
          rd16be payload (o + 8) >>= λ rdlen.
          let start = (o + 10) % 65536 in
          let rest = find_address n payload len ((start + rdlen) % 65536) in
          if ltb len ((start + rdlen) % 65536)
          then some none
          else if (type == 1) && (class_code == 1) && (rdlen == 4)
          then (slice start 4 payload >>= λ address. some (some address))
          else rest)
]

abbrev pub no_ip : List ℕ
no_ip = 0 ∷ 0 ∷ 0 ∷ 0 ∷ []

unfoldable pub with_address : Dns → Option (List ℕ) → Dns
with_address d none = record d { reply = true; waiting = false }
with_address d (some address) = record d {
  reply_ip = address;
  reply_has_a = true;
  reply = true;
  waiting = false;
}

-- The part of `handle_dns_payload` that reads the questions and the answers.
unfoldable pub read_reply : List ℕ → ℕ → ℕ → ℕ → ℕ → Dns → Option Dns
read_reply payload len flags qdcount ancount d = skip_questions qdcount payload len 12 >>= elim [
  | none ↦ some (with_address d none)
  | some off ↦
      if bit_and flags 0x000F == 0
      then (find_address ancount payload len off >>= λ found. some (with_address d found))
      else some (with_address d none)
]

-- `handle_dns_payload`; `none` is a read outside the message.
unfoldable pub handle_dns_payload : List ℕ → ℕ → ℕ → ℕ → Dns → Option Dns
handle_dns_payload payload len src_port dst_port d =
    if not d.waiting || not (src_port == 53) || not (dst_port == d.expected_src_port)
    then some d
    else if ltb len 12
    then some (record d { waiting = false })
    else (rd16be payload 0 >>= λ id. rd16be payload 2 >>= λ flags. rd16be payload 4 >>= λ qdcount.
        rd16be payload 6 >>= λ ancount.
        if not (id == d.expected_id) || (bit_and flags 0x8000 == 0)
        then some d
        else read_reply payload len flags qdcount ancount
            (record d { reply_has_a = false; reply_ip = no_ip }))
