-- ===== src/Printf/Bounded.antt =====
-- `kvsnprintf` of src/kernel/printf.c: what stands in the buffer.
use heat_os.Prelude.{
  ℕ, zero, suc, ◌+◌, ◌-◌, ◌^◌, ◌≤◌, ◌<◌, ◌≡◌, ◌≢◌, refl, sym, ap, ◌∙◌, true, none, some, List, [],
  ◌∷◌, arith, min, length, ltb, ◌==◌, if◌then◌else◌, Bool-cases, inl, inr, lt→ltb, le→ltb-false,
  eq→==, ne→==-false, update, update_self, update_ne, ◌&&◌, add32,
}
use mathlib.Core.Path.{fun_ext}
use native.Mathlib.Decide.{dec_lt, ℕ_discrete}
use heat_os.Keyboard.{entry}
use heat_os.Printf.{Arg, Context, snprintf_putc, put_all, terminate, filled, kvprintf, kvsnprintf}

-- The buffer of `cap` bytes with the text `out` printed into it: what fits of the text in front of a NUL, the
-- NUL, and what was there before. A buffer of no bytes stays as it is.
unfoldable pub printed : (ℕ → ℕ) → ℕ → List ℕ → ℕ → ℕ
printed buf cap out k =
    let end = min (length out) (cap - 1) in
    if cap == 0 then buf k else if ltb k end then entry out k else if k == end then 0 else buf k

putc_self :
    (c : ℕ) (ctx : Context)
    → ctx.at + 1 < 2 ^ 32
    → ctx.at + 1 < ctx.cap
    → (snprintf_putc c ctx).buf ctx.at ≡ c
unfolding snprintf_putc
putc_self c ctx narrow room =
    rw (lt→ltb 0 ctx.cap (omega arith), lt→ltb (add32 ctx.at 1) ctx.cap (omega arith))
      (update_self ctx.buf ctx.at c)

putc_other : (c : ℕ) (ctx : Context) (i : ℕ) → ctx.at ≢ i → (snprintf_putc c ctx).buf i ≡ ctx.buf i
unfolding snprintf_putc
putc_other c ctx i ne = elim (Bool-cases (ltb 0 ctx.cap && ltb (add32 ctx.at 1) ctx.cap)) [
  | inl e ↦ rw e (update_ne ctx.buf ctx.at i c ne)
  | inr e ↦ rw e refl
]

putc_past :
    (c : ℕ) (ctx : Context) (i : ℕ)
    → ctx.at + 1 < 2 ^ 32
    → ctx.cap ≤ i + 1
    → (snprintf_putc c ctx).buf i ≡ ctx.buf i
unfolding snprintf_putc
putc_past c ctx i narrow past = elim (Bool-cases (ltb 0 ctx.cap && ltb (add32 ctx.at 1) ctx.cap)) [
  | inl e ↦ rw e (update_ne ctx.buf ctx.at i c (λ w. absurd (tight e w)))
  | inr e ↦ rw e refl
]
  where
    tight : (ltb 0 ctx.cap && ltb (add32 ctx.at 1) ctx.cap) ≡ true → ctx.at ≡ i → ⊥
    tight e w = ground arith

putc_at : (c : ℕ) (ctx : Context) → ctx.at + 1 < 2 ^ 32 → (snprintf_putc c ctx).at ≡ ctx.at + 1
unfolding snprintf_putc
putc_at c ctx narrow = omega arith

putc_cap : (c : ℕ) (ctx : Context) → (snprintf_putc c ctx).cap ≡ ctx.cap
unfolding snprintf_putc
putc_cap c ctx = refl

put_all-below :
    (out : List ℕ) (ctx : Context) (i : ℕ)
    → ctx.at + length out < 2 ^ 32
    → i < ctx.at
    → (put_all out ctx).buf i ≡ ctx.buf i
unfolding put_all
put_all-below [] ctx i narrow h = refl
put_all-below (c ∷ out) ctx i narrow h =
    let next = putc_at c ctx (omega arith) in
    put_all-below out (snprintf_putc c ctx) i (omega arith) (omega arith)
    ∙ putc_other c ctx i (λ w. omega arith)

put_all-past :
    (out : List ℕ) (ctx : Context) (i : ℕ)
    → ctx.at + length out < 2 ^ 32
    → ctx.cap ≤ i + 1
    → (put_all out ctx).buf i ≡ ctx.buf i
unfolding put_all
put_all-past [] ctx i narrow h = refl
put_all-past (c ∷ out) ctx i narrow h =
    let next = putc_at c ctx (omega arith) in
    let same = putc_cap c ctx in
    put_all-past out (snprintf_putc c ctx) i (omega arith) (omega arith)
    ∙ putc_past c ctx i (omega arith) h

-- Nothing is written behind the text.
put_all-behind :
    (out : List ℕ) (ctx : Context) (i : ℕ)
    → ctx.at + length out < 2 ^ 32
    → ctx.at + length out ≤ i
    → (put_all out ctx).buf i ≡ ctx.buf i
unfolding put_all
put_all-behind [] ctx i narrow h = refl
put_all-behind (c ∷ out) ctx i narrow h =
    let next = putc_at c ctx (omega arith) in
    put_all-behind out (snprintf_putc c ctx) i (omega arith) (omega arith)
    ∙ putc_other c ctx i (λ w. omega arith)

put_all-at :
    (out : List ℕ) (ctx : Context)
    → ctx.at + length out < 2 ^ 32
    → (put_all out ctx).at ≡ ctx.at + length out
unfolding put_all
put_all-at [] ctx narrow = omega arith
put_all-at (c ∷ out) ctx narrow =
    let next = putc_at c ctx (omega arith) in
    put_all-at out (snprintf_putc c ctx) (omega arith) ∙ omega arith

put_all-cap : (out : List ℕ) (ctx : Context) → (put_all out ctx).cap ≡ ctx.cap
unfolding put_all
put_all-cap [] ctx = refl
put_all-cap (c ∷ out) ctx = put_all-cap out (snprintf_putc c ctx) ∙ putc_cap c ctx

put_all-entry :
    (out : List ℕ) (ctx : Context) (i : ℕ)
    → ctx.at + length out < 2 ^ 32
    → i < length out
    → ctx.at + i + 1 < ctx.cap
    → (put_all out ctx).buf (ctx.at + i) ≡ entry out i
unfolding put_all entry
put_all-entry [] ctx i narrow h room = absurd (omega arith)
put_all-entry (c ∷ out) ctx zero narrow h room =
    let next = putc_at c ctx (omega arith) in
    ap (put_all out (snprintf_putc c ctx)).buf (omega arith)
    ∙ (put_all-below out (snprintf_putc c ctx) ctx.at (omega arith) (omega arith)
        ∙ putc_self c ctx (omega arith) (omega arith))
put_all-entry (c ∷ out) ctx (suc i) narrow h room =
    let next = putc_at c ctx (omega arith) in
    let same = putc_cap c ctx in
    ap (put_all out (snprintf_putc c ctx)).buf (omega arith)
    ∙ put_all-entry out (snprintf_putc c ctx) i (omega arith) (omega arith) (omega arith)

module _ (buf : ℕ → ℕ) (cap : ℕ) (out : List ℕ) (narrow : length out < 2 ^ 31) where
  abbrev start : Context
  start = record { buf = buf; cap = cap; at = 0 }

  abbrev nul : ℕ
  nul = min (length out) (cap - 1)

  -- The buffer with the text and the NUL.
  filled-nul : 0 < cap → filled buf cap out ≡ update (put_all out start).buf nul 0
  unfolding filled terminate
  filled-nul room =
      let at_end : (put_all out start).at ≡ length out =
        put_all-at out start (omega arith) ∙ omega arith in
      let end : ℕ = if ltb (length out) cap then length out else cap - 1 in
      let where_end : end ≡ nul = ground arith in
      rw (put_all-cap out start, lt→ltb 0 cap room, at_end, where_end) refl

  filled-empty : cap ≡ 0 → filled buf cap out ≡ (put_all out start).buf
  unfolding filled terminate
  filled-empty none_room = rw (put_all-cap out start, le→ltb-false 0 cap (omega arith)) refl

  text-kept : (k : ℕ) → nul < k → (put_all out start).buf k ≡ buf k
  text-kept k behind = elim (dec_lt (k + 1) cap) [
    | yes inside ↦ put_all-behind out start k (omega arith) (omega arith)
    | no past ↦ put_all-past out start k (omega arith) (omega arith)
  ]

  text-entry : (k : ℕ) → k < nul → (put_all out start).buf k ≡ entry out k
  text-entry k inside =
      let from_start : 0 + k ≡ k = omega arith in
      sym (ap (put_all out start).buf from_start)
      ∙ put_all-entry out start k (omega arith) (omega arith) (omega arith)

  filled-inside : (k : ℕ) → 0 < cap → filled buf cap out k ≡ printed buf cap out k
  unfolding printed
  filled-inside k room =
      rw (ne→==-false cap 0 (λ w. omega arith), filled-nul room)
        (elim (dec_lt k nul) [
          | yes text ↦
              rw (lt→ltb k nul text)
                (update_ne (put_all out start).buf nul k 0 (λ w. omega arith) ∙ text-entry k text)
          | no behind ↦ rw (le→ltb-false k nul (omega arith)) (elim (ℕ_discrete k nul) [
            | yes end ↦ let back : nul ≡ k = sym end in rw (eq→== k nul end, eq→== nul k back) refl
            | no past ↦ rw (ne→==-false k nul past) (
                update_ne (put_all out start).buf nul k 0 (λ w. past (sym w))
                ∙ text-kept k (omega arith))
          ])
        ])

  filled-printed : filled buf cap out ≡ printed buf cap out
  unfolding printed
  filled-printed = fun_ext (λ k. elim (ℕ_discrete cap 0) [
    | yes none_room ↦
        ap (λ f. f k) (filled-empty none_room)
        ∙ (put_all-past out start k (omega arith) (omega arith) ∙ rw (eq→== cap 0 none_room) refl)
    | no room ↦ filled-inside k (omega arith)
  ])

-- Where `kvprintf` puts out fewer than 2^31 characters, `kvsnprintf` returns their number and leaves in the
-- buffer, whatever its capacity, 0 included, exactly the characters that fit in front of a NUL, the NUL, and
-- what was there before behind the NUL; on a null pointer with a capacity it returns 0, and with none the number.
pub kvsnprintf-printed :
    (buf : ℕ → ℕ) (cap : ℕ) (fmt : List ℕ) (args : List Arg) (out : List ℕ)
    → kvprintf fmt args ≡ some out
    → length out < 2 ^ 31
    → (kvsnprintf (some buf) cap fmt args ≡ some (length out, some (printed buf cap out)))
      × (kvsnprintf none cap fmt args ≡ some (if cap == 0 then length out else 0, none))
unfolding kvsnprintf
kvsnprintf-printed buf cap fmt args out puts narrow = (
  rw (puts, filled-printed buf cap out narrow) refl,
  elim (ℕ_discrete cap 0) [
    | yes none_room ↦ rw (le→ltb-false 0 cap (omega arith), puts, eq→== cap 0 none_room) refl
    | no room ↦ rw (lt→ltb 0 cap (omega arith), ne→==-false cap 0 room) refl
  ],
)
