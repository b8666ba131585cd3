-- ===== src/Network/Address.antt =====
-- `network_parse_ipv4` of src/drivers/network.c.
use heat_os.Prelude.{
  ℕ, zero, suc, ◌+◌, ◌-◌, ◌*◌, Bool, false, Option, none, some, List, [], ◌∷◌, ltb, leb, ◌==◌, ◌&&◌,
  if◌then◌else◌, length,
}
use heat_os.Prelude.{◌>>=◌}
use heat_os.Network.Resolver.{skip_spaces}

unfoldable pub is_digit : ℕ → Bool
is_digit c = leb b'0' c && leb c b'9'

-- The digits of one part: its value and the rest of the text.
unfoldable pub parse_number : List ℕ → ℕ → Option (ℕ × List ℕ)
parse_number [] value = some (value, [])
parse_number (c ∷ p) value =
    let value' = value * 10 + (c - b'0') in
    let rest = parse_number p value' in
    if is_digit c then (if ltb 255 value' then none else rest) else some (value, c ∷ p)

unfoldable pub starts_digit : List ℕ → Bool
starts_digit [] = false
starts_digit (c ∷ p) = is_digit c

-- The text behind the dot that follows a part, where `left` parts are still to come.
unfoldable pub after_part : ℕ → List ℕ → Option (List ℕ)
after_part zero p = some p
after_part (suc left) [] = none
after_part (suc left) (c ∷ p) = if c == b'.' then some p else none

-- The last `left` parts, and the text behind them.
unfoldable pub parse_parts : ℕ → List ℕ → Option (List ℕ × List ℕ)
parse_parts zero p = some ([], p)
parse_parts (suc left) p =
    if starts_digit p
    then (parse_number p 0 >>= λ number. after_part left number.1 >>= λ p'.
        parse_parts left p' >>= λ rest. some (number.0 ∷ rest.0, rest.1))
    else none

-- `network_parse_ipv4`: the address, or `none` for a refusal.
unfoldable pub network_parse_ipv4 : List ℕ → Option (List ℕ)
network_parse_ipv4 text = parse_parts 4 (skip_spaces text) >>= λ r.
    if length (skip_spaces r.1) == 0 then some r.0 else none
