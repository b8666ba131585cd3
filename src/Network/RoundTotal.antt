-- ===== src/Network/RoundTotal.antt =====
-- Whatever the card hands over, a round of `ne_receive_packets` of src/drivers/network.c comes to an end with a
-- well-formed state.
use heat_os.Prelude.{
  ℕ, zero, suc, ◌+◌, ◌-◌, ◌*◌, ◌/◌, ◌%◌, ◌≤◌, ◌<◌, ◌≡◌, ◌∙◌, sym, Bool, some, List, ltb, leb, ◌==◌,
  ◌&&◌, if◌then◌else◌, arith, length, length-take, length-append, Bool-cases, inl, inr, leb-false,
  ==→eq,
}
use heat_os.Network.{Net, Card}
use heat_os.Network.Ne2000.{
  Device, in_port, ne_port, even_len, dma_start, dma_read_words, ne_dma_read, ne_curr_page, ne_read,
}
use heat_os.Prelude.{byte}
use heat_os.Prelude.{Gives, Any, bind-Gives, if-Gives, byte-Gives, Gives-result}
use heat_os.Network.ReceiveTotal.{IsNet}
use heat_os.Network.FrameTotal.{handle_ethernet_frame-Gives}
use heat_os.Network.Receive.{handle_ethernet_frame}
use heat_os.Network.Poll.{page_after, read_frame, take_packet, after_header, receive_round}

-- The length of what the card's DMA reads.
length-dma_read_words :
    (dev : Device) (n : ℕ) (c : Card) → length (dma_read_words dev n c).0 ≡ n * 2
unfolding dma_read_words
length-dma_read_words dev zero c = omega arith
length-dma_read_words dev (suc n) c =
    let rest = length-dma_read_words dev n (in_port dev 2 (ne_port 16 c) c).1 in omega arith

length-ne_dma_read :
    (dev : Device) (addr len : ℕ) (c : Card)
    → len < 65000
    → length (ne_dma_read dev addr len c).1 ≡ len
unfolding ne_dma_read even_len
length-ne_dma_read dev addr len c small = elim (Bool-cases (len == 0)) [
  | inl e ↦ let zero_len = ==→eq len 0 e in rw e (sym zero_len)
  | inr e ↦ rw e (
      let words = length-dma_read_words dev (even_len len / 2) (dma_start addr len 10 c) in
      length-take len _ ∙ omega arith)
]

page_after-lt : (page : ℕ) → page_after page < 128
unfolding page_after
page_after-lt page = ground arith

length-read_frame :
    (dev : Device) (page len : ℕ) (c : Card)
    → page < 128
    → len ≤ 1600
    → length (read_frame dev page len c).0 ≡ len
unfolding read_frame
length-read_frame dev page len c ring small = elim (Bool-cases (leb (page * 256 + 4 + len) 32768)) [
  | inl e ↦ rw e (length-ne_dma_read dev _ len c (omega arith))
  | inr e ↦ rw e (
      let past = leb-false _ _ e in
      length-append (ne_dma_read dev (page * 256 + 4) (32768 - (page * 256 + 4)) c).1 _
      ∙ (let first =
            length-ne_dma_read dev (page * 256 + 4) (32768 - (page * 256 + 4)) c (omega arith) in
          let c' = (ne_dma_read dev (page * 256 + 4) (32768 - (page * 256 + 4)) c).2 in
          let second =
            length-ne_dma_read dev 17920 (len - (32768 - (page * 256 + 4))) c' (omega arith) in
          omega arith))
]

take_packet-IsNet :
    (dev : Device) (page status count : ℕ) (n : Net)
    → page < 128
    → IsNet n
    → Gives IsNet (take_packet dev page status count n)
unfolding take_packet
take_packet-IsNet dev page status count n ring h =
    if-Gives IsNet ((status % 2 == 1) && leb 4 count) _ _
      (λ good. taken (if ltb 1600 (count - 4) then 1600 else count - 4) (ground arith)) (λ bad. h)
  where
    taken :
        (len : ℕ)
        → len ≤ 1600
        → Gives IsNet (
            handle_ethernet_frame dev
              (read_frame dev page len n.card).0
              len
              (record n { card = (read_frame dev page len n.card).1 }))
    taken len small =
        let same = length-read_frame dev page len n.card ring small in
        handle_ethernet_frame-Gives dev _ len _ (omega arith) small h

after_header-IsNet :
    (dev : Device) (page curr : ℕ) (hdr : List ℕ) (n : Net)
    → page < 128
    → length hdr ≡ 4
    → IsNet n
    → Gives (λ r. IsNet r.1) (after_header dev page curr hdr n)
unfolding after_header
after_header-IsNet dev page curr hdr n ring four h =
    bind-Gives (λ r. IsNet r.1) Any (byte hdr 0) _ (byte-Gives hdr 0 (omega arith))
      (λ status a.
        bind-Gives (λ r. IsNet r.1) Any (byte hdr 1) _ (byte-Gives hdr 1 (omega arith))
          (λ next b.
            bind-Gives (λ r. IsNet r.1) Any (byte hdr 2) _ (byte-Gives hdr 2 (omega arith))
              (λ low c.
                bind-Gives (λ r. IsNet r.1) Any (byte hdr 3) _ (byte-Gives hdr 3 (omega arith))
                  (λ high d.
                    bind-Gives (λ r. IsNet r.1) IsNet
                      (take_packet dev page status (low + high * 256) n) _
                      (take_packet-IsNet dev page status (low + high * 256) n ring h)
                      (λ n' h'. h')))))

-- Whatever the card's registers and its memory show, a round of `ne_receive_packets` comes to an end, reads
-- inside the packet's header and its frame only, and leaves every address in the statics of its width.
pub receive_round-IsNet :
    (dev : Device) (n : Net)
    → IsNet n
    → (r : Bool × Net) × (receive_round dev n ≡ some r) × IsNet r.1
unfolding receive_round
receive_round-IsNet dev n h =
    let curr = ne_curr_page dev n.card in
    let bnry = ne_read dev 3 curr.1 in
    let page = page_after bnry.0 in
    let hdr = ne_dma_read dev (page * 256) 4 bnry.1 in
    Gives-result (λ r. IsNet r.1) (receive_round dev n)
      (if-Gives (λ r. IsNet r.1) (page == curr.0) _ _ (λ empty. h)
        (λ packet.
          if-Gives (λ r. IsNet r.1) hdr.0 _ _
            (λ read.
              after_header-IsNet dev page curr.0 hdr.1 _ (page_after-lt bnry.0)
                (length-ne_dma_read dev (page * 256) 4 bnry.1 (omega arith)) h)
            (λ failed. h)))
