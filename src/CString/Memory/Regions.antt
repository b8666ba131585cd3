-- ===== src/CString/Memory/Regions.antt =====
-- What it means that bytes were moved from one area of memory to another, for src/lib/string.c.
use native.Mathlib.Decide.{dec_lt}
use heat_os.Prelude.{
  ℕ, zero, suc, ◌+◌, ◌-◌, ◌≤◌, ◌<◌, ◌≡◌, refl, sym, ap, ◌∙◌, ◌⊎◌, inl, inr, arith, update,
  update_self, update_ne,
}
use heat_os.CString.Memory.{}

-- The memory `m'` has at `d` the `n` bytes that `m` has at `s`, and else the bytes of `m`.
pub record IsMoved (n d s : ℕ) (m m' : ℕ → ℕ) : Type 0 where
  pub moved : (i : ℕ) → i < n → m' (d + i) ≡ m (s + i)
  pub kept : (x : ℕ) → (x < d) ⊎ (d + n ≤ x) → m' x ≡ m x

-- Copying upwards reads nothing that it has written.
abbrev pub IsForward : ℕ → ℕ → ℕ → Type 0
IsForward n d s = (d ≤ s) ⊎ (s + n ≤ d)

pub IsMoved-none : (d s : ℕ) (m : ℕ → ℕ) → IsMoved 0 d s m m
IsMoved-none d s m = record { moved = λ i h. absurd (omega arith); kept = λ x h. refl }

pub IsMoved-one : (d s : ℕ) (m : ℕ → ℕ) → IsMoved 1 d s m (update m d (m s))
IsMoved-one d s m = record { moved = at_d; kept = other }
  where
    at_d : (i : ℕ) → i < 1 → update m d (m s) (d + i) ≡ m (s + i)
    at_d zero h = ap (update m d (m s)) base ∙ (update_self m d (m s) ∙ ap m (sym base'))
      where
        base : d + 0 ≡ d
        base = omega arith

        base' : s + 0 ≡ s
        base' = omega arith
    at_d (suc i) h = absurd (omega arith)

    other : (x : ℕ) → (x < d) ⊎ (d + 1 ≤ x) → update m d (m s) x ≡ m x
    other x (inl h) = update_ne m d x (m s) (λ e. omega arith)
    other x (inr h) = update_ne m d x (m s) (λ e. omega arith)

-- Two copies, one behind the other.
pub IsMoved-both :
    (t k n d s d' s' : ℕ) {m m' m'' : ℕ → ℕ}
    → t ≡ k + n
    → IsForward t d s
    → d' ≡ d + k
    → s' ≡ s + k
    → IsMoved k d s m m'
    → IsMoved n d' s' m' m''
    → IsMoved t d s m m''
IsMoved-both t k n d s d' s' {m} {m'} {m''} et safe ed es first second = record {
  moved = all;
  kept = others;
}
  where
    clear : (i : ℕ) → k ≤ i → i < t → IsForward t d s → (s + i < d) ⊎ (d + k ≤ s + i)
    clear i low high (inl le) = inr (omega arith)
    clear i low high (inr le) = inl (omega arith)

    all : (i : ℕ) → i < t → m'' (d + i) ≡ m (s + i)
    all i h = elim (dec_lt i k) [
      | yes low ↦ second.kept (d + i) (inl (omega arith)) ∙ first.moved i low
      | no high ↦
          let at_d : d + i ≡ d' + (i - k) = omega arith in
          let at_s : s' + (i - k) ≡ s + i = omega arith in
          ap m'' at_d
          ∙ (second.moved (i - k) (omega arith)
              ∙ (ap m' at_s ∙ first.kept (s + i) (clear i (omega arith) h safe)))
    ]

    others : (x : ℕ) → (x < d) ⊎ (d + t ≤ x) → m'' x ≡ m x
    others x (inl h) = second.kept x (inl (omega arith)) ∙ first.kept x (inl h)
    others x (inr h) = second.kept x (inr (omega arith)) ∙ first.kept x (inr (omega arith))

pub IsForward-tail :
    (t k n d s d' s' : ℕ)
    → t ≡ k + n
    → IsForward t d s
    → d' ≡ d + k
    → s' ≡ s + k
    → IsForward n d' s'
IsForward-tail t k n d s d' s' et (inl le) ed es = inl (omega arith)
IsForward-tail t k n d s d' s' et (inr le) ed es = inr (omega arith)
