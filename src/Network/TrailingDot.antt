-- ===== src/Network/TrailingDot.antt =====
-- `build_dns_query` of src/drivers/network.c on a name that ends in a dot.
use heat_os.Prelude.{
  ℕ, ◌≡◌, refl, Option, none, some, List, [], ◌∷◌, ◌++◌, ltb, leb, ◌==◌, not, length, Bool-cases,
  inl, inr,
}
use heat_os.Prelude.{Leaves, if-Leaves, bind-Leaves}
use heat_os.Network.Resolver.{
  Builder, close_label, host_char_ok, build_labels, end_query, skip_spaces, query_start,
  build_dns_query,
}

abbrev dotted : List ℕ → List ℕ
dotted p = p ++ b'.' ∷ []

-- The loop ends behind the dot with no label begun.
build_labels-dotted :
    (out_max : ℕ) (p : List ℕ) (b : Builder)
    → Leaves (λ b'. b'.label_len ≡ 0) (build_labels out_max (dotted p) b)
unfolding build_labels close_label
build_labels-dotted out_max [] b =
    if-Leaves (λ b'. b'.label_len ≡ 0) (b.label_len == 0) _ _ (λ e. tt) (λ e. refl)
build_labels-dotted out_max (c ∷ p) b =
    let Empty : Builder → Type 0 = λ b'. b'.label_len ≡ 0 in
    if-Leaves Empty (c == b'.') _ _
      (λ dot.
        if-Leaves Empty (b.label_len == 0) _ _ (λ e. tt)
          (λ e.
            if-Leaves Empty (length (dotted p) == 0) _ _ (λ e. refl)
              (λ e.
                if-Leaves Empty (leb out_max b.pos) _ _ (λ e. tt)
                  (λ e. build_labels-dotted out_max p _))))
      (λ char.
        if-Leaves Empty (not (host_char_ok c)) _ _ (λ e. tt)
          (λ e.
            if-Leaves Empty (leb 63 b.label_len) _ _ (λ e. tt)
              (λ e.
                if-Leaves Empty (leb out_max b.pos) _ _ (λ e. tt)
                  (λ e. build_labels-dotted out_max p _))))

skip_spaces-dotted : (p : List ℕ) → (q : List ℕ) × (skip_spaces (dotted p) ≡ dotted q)
unfolding skip_spaces
skip_spaces-dotted [] = ([], refl)
skip_spaces-dotted (c ∷ p) =
    let rest = skip_spaces-dotted p in
    elim (Bool-cases (c == b' ')) [ inl e ↦ (rest.0, rw e rest.1) | inr e ↦ (c ∷ p, rw e refl) ]

end_query-empty : (out_max : ℕ) (b : Builder) → b.label_len ≡ 0 → end_query out_max b ≡ none
unfolding end_query
end_query-empty out_max b e = rw e refl

-- A name that ends in a dot is refused, whatever stands before the dot and however large the buffer is.
pub build_dns_query-dotted :
    (p : List ℕ) (id out_max : ℕ) → build_dns_query (p ++ b'.' ∷ []) id out_max ≡ none
unfolding build_dns_query
build_dns_query-dotted p id out_max =
    let found = skip_spaces-dotted p in
    refused _ (
      rw found.1 (
        if-Leaves (λ r. ⊥) (ltb out_max 18) _ _ (λ e. tt)
          (λ e.
            if-Leaves (λ r. ⊥) (length (dotted found.0) == 0) _ _ (λ e. tt)
              (λ e.
                bind-Leaves (λ r. ⊥) (λ b'. b'.label_len ≡ 0)
                  (build_labels out_max (dotted found.0) (query_start id)) (end_query out_max)
                  (build_labels-dotted out_max found.0 (query_start id))
                  (λ b' empty. rw (end_query-empty out_max b' empty) tt)))))
  where
    refused : (m : Option ((ℕ → ℕ) × ℕ)) → Leaves (λ r. ⊥) m → m ≡ none
    refused none h = refl
    refused (some r) h = elim h [ ]
