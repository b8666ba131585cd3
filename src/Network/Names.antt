-- ===== src/Network/Names.antt =====
-- The name that `build_dns_query` of src/drivers/network.c writes, as the chain of its labels.
use heat_os.Prelude.{
  ℕ, zero, suc, ◌+◌, ◌%◌, ◌≤◌, ◌<◌, ◌≡◌, refl, sym, List, [], ◌∷◌, leb, ◌==◌, not, arith, length,
  ==-false, leb-false, subst, update, update_self, update_ne, ◌∙◌,
}
use heat_os.Prelude.{Leaves, if-Leaves}
use heat_os.Network.Resolver.{
  Builder, close_label, open_label, put_char, host_char_ok, build_labels,
}

-- The labels of a buffer from one index to another.
pub data Labels (out : ℕ → ℕ) : ℕ → ℕ → Type 0 where
  done : (at : ℕ) → Labels out at at
  more :
      (at stop : ℕ)
      → 0 < out at
      → out at < 64
      → Labels out (at + 1 + out at) stop
      → Labels out at stop

pub Labels-le : {out : ℕ → ℕ} (at stop : ℕ) → Labels out at stop → at ≤ stop
Labels-le at stop (done _) = omega arith
Labels-le at stop (more _ _ positive small rest) = let le = Labels-le _ stop rest in omega arith

-- One more label at the end.
Labels-snoc :
    (out : ℕ → ℕ) (at stop next : ℕ)
    → Labels out at stop
    → 0 < out stop
    → out stop < 64
    → next ≡ stop + 1 + out stop
    → Labels out at next
Labels-snoc out at stop next (done _) positive small e =
    more at next positive small (subst (λ k. Labels out k next) e (done next))
Labels-snoc out at stop next (more _ _ p s rest) positive small e =
    more at next p s (Labels-snoc out _ stop next rest positive small e)

-- A write behind the labels keeps them.
pub Labels-update :
    (out : ℕ → ℕ) (at stop i v : ℕ)
    → stop ≤ i
    → Labels out at stop
    → Labels (update out i v) at stop
Labels-update out at stop i v h (done _) = done at
Labels-update out at stop i v h (more _ _ positive small rest) =
    let le = Labels-le (at + 1 + out at) stop rest in
    let same : update out i v at ≡ out at = update_ne out i at v (λ e. omega arith) in
    more at stop (rw same positive) (rw same small) (
      subst (λ k. Labels (update out i v) (at + 1 + k) stop) (sym same)
        (Labels-update out (at + 1 + out at) stop i v h rest))

-- The variables of the loop: the closed labels, then the label begun.
abbrev pub IsBuilder : ℕ → Builder → Type 0
IsBuilder out_max b =
    Labels b.out 12 b.label_len_pos
    × (b.pos ≡ b.label_len_pos + 1 + b.label_len)
    × (b.label_len ≤ 63)
    × (b.pos ≤ out_max)

-- The label begun, with its length byte written.
pub Labels-close :
    (out_max : ℕ) (b : Builder)
    → IsBuilder out_max b
    → 0 < b.label_len
    → Labels (update b.out b.label_len_pos (b.label_len % 256)) 12 b.pos
Labels-close out_max b h some_char =
    let out = update b.out b.label_len_pos (b.label_len % 256) in
    let written : out b.label_len_pos ≡ b.label_len =
      update_self b.out b.label_len_pos (b.label_len % 256) ∙ let small = h.2 in omega arith in
    let small = h.2 in
    let pos_eq = h.1 in
    Labels-snoc out 12 b.label_len_pos b.pos
      (Labels-update b.out 12 b.label_len_pos b.label_len_pos (b.label_len % 256) (omega arith) h.0)
      (omega arith) (omega arith) (omega arith)

open_label-IsBuilder :
    (out_max : ℕ) (b : Builder)
    → IsBuilder out_max b
    → 0 < b.label_len
    → b.pos < out_max
    → IsBuilder out_max (open_label (close_label b))
unfolding open_label close_label
open_label-IsBuilder out_max b h some_char room = (
  Labels-update _ 12 b.pos b.pos 0 (omega arith) (Labels-close out_max b h some_char),
  omega arith,
  omega arith,
  omega arith,
)

put_char-IsBuilder :
    (out_max c : ℕ) (b : Builder)
    → IsBuilder out_max b
    → b.label_len < 63
    → b.pos < out_max
    → IsBuilder out_max (put_char c b)
unfolding put_char
put_char-IsBuilder out_max c b h short room =
    let pos_eq = h.1 in
    (
      Labels-update b.out 12 b.label_len_pos b.pos _ (omega arith) h.0,
      omega arith,
      omega arith,
      omega arith,
    )

-- The loop leaves no label begun, or the labels as they should be.
abbrev pub Ends : ℕ → Builder → Type 0
Ends out_max b = 0 < b.label_len → IsBuilder out_max b

closed : (out_max : ℕ) (b : Builder) → Ends out_max (close_label b)
unfolding close_label
closed out_max b bad = absurd (omega arith)

pub build_labels-Ends :
    (out_max : ℕ) (p : List ℕ) (b : Builder)
    → IsBuilder out_max b
    → Leaves (Ends out_max) (build_labels out_max p b)
unfolding build_labels
build_labels-Ends out_max [] b h = λ some_char. h
build_labels-Ends out_max (c ∷ p) b h =
    if-Leaves (Ends out_max) (c == b'.') _ _
      (λ dot.
        if-Leaves (Ends out_max) (b.label_len == 0) _ _ (λ e. tt)
          (λ label.
            let some_char : 0 < b.label_len =
              let ne = ==-false b.label_len 0 label in positive b.label_len ne in
            if-Leaves (Ends out_max) (length p == 0) _ _ (λ last. closed out_max b)
              (λ e.
                if-Leaves (Ends out_max) (leb out_max b.pos) _ _ (λ e. tt)
                  (λ room.
                    build_labels-Ends out_max p _
                      (open_label-IsBuilder out_max b h some_char (leb-false _ _ room))))))
      (λ char.
        if-Leaves (Ends out_max) (not (host_char_ok c)) _ _ (λ e. tt)
          (λ e.
            if-Leaves (Ends out_max) (leb 63 b.label_len) _ _ (λ e. tt)
              (λ short.
                if-Leaves (Ends out_max) (leb out_max b.pos) _ _ (λ e. tt)
                  (λ room. build_labels-Ends out_max p _ (
                    put_char-IsBuilder out_max c b h (leb-false _ _ short) (leb-false _ _ room))))))
  where
    positive : (k : ℕ) → (k ≡ 0 → ⊥) → 0 < k
    positive zero ne = absurd (ne refl)
    positive (suc k) ne = omega arith
