-- ===== src/Redis/Base64.antt =====
-- encoding/base64: the raw URL encoding, and that it loses nothing.
use stable_placement.Identity.Utf8.{contains}
use stable_placement.Base.{
  ℕ, ◌+◌, ◌-◌, ◌*◌, ◌/◌, ◌%◌, ◌<◌, ◌≡◌, ◌≢◌, refl, sym, ap, ◌∙◌, ltb, ◌==◌, if◌then◌else◌, false,
  [], ◌∷◌, Text, All, map, arith,
}

-- The character of a number below 64: A-Z, a-z, 0-9, '-' and '_'.
unfoldable pub symbol : ℕ → ℕ
symbol v =
    if ltb v 26
    then 65 + v
    else if ltb v 52
    then 71 + v
    else if ltb v 62
    then v - 4
    else if v == 62
    then 45
    else 95

-- base64.RawURLEncoding.EncodeToString
unfoldable pub encode : Text → Text
unfolding symbol
encode [] = []
encode (a ∷ []) = symbol (a / 4) ∷ symbol (a % 4 * 16) ∷ []
encode (a ∷ b ∷ []) = symbol (a / 4) ∷ symbol (a % 4 * 16 + b / 16) ∷ symbol (b % 16 * 4) ∷ []
encode (a ∷ b ∷ c ∷ rest) =
    symbol (a / 4)
    ∷ symbol (a % 4 * 16 + b / 16)
    ∷ symbol (b % 16 * 4 + c / 64)
    ∷ symbol (c % 64)
    ∷ encode rest

-- The number of a character.
value : ℕ → ℕ
value s =
    if s == 45
    then 62
    else if s == 95
    then 63
    else if ltb s 58
    then s + 4
    else if ltb s 91
    then s - 65
    else s - 71

value-symbol : (v : ℕ) → v < 64 → value (symbol v) ≡ v
unfolding value symbol
value-symbol v h = ground arith

symbol-ne_colon : (v : ℕ) → v < 64 → symbol v ≢ 0x3a
unfolding symbol
symbol-ne_colon v h = ground arith

decode_values : Text → Text
decode_values [] = []
decode_values (p ∷ []) = []
decode_values (p ∷ q ∷ []) = (p * 4 + q / 16) ∷ []
decode_values (p ∷ q ∷ r ∷ []) = (p * 4 + q / 16) ∷ (q % 16 * 16 + r / 4) ∷ []
decode_values (p ∷ q ∷ r ∷ s ∷ rest) =
    (p * 4 + q / 16) ∷ (q % 16 * 16 + r / 4) ∷ (r % 4 * 64 + s) ∷ decode_values rest

-- The bytes of a text are bytes.
abbrev pub IsBytes : Text → Type 0
IsBytes v = All (λ b. b < 256) v

pub decode : Text → Text
unfolding value decode_values
decode v = decode_values (map value v)

-- the three bytes of a group, from the numbers of its characters
first_byte : (a b : ℕ) → a < 256 → b < 256 → a / 4 * 4 + (a % 4 * 16 + b / 16) / 16 ≡ a
first_byte a b h g = omega arith

second_byte :
    (a b c : ℕ)
    → a < 256
    → b < 256
    → c < 256
    → (a % 4 * 16 + b / 16) % 16 * 16 + (b % 16 * 4 + c / 64) / 4 ≡ b
second_byte a b c h g k = omega arith

third_byte : (b c : ℕ) → b < 256 → c < 256 → (b % 16 * 4 + c / 64) % 4 * 64 + c % 64 ≡ c
third_byte b c h g = omega arith

pub decode-encode : (v : Text) → IsBytes v → decode (encode v) ≡ v
unfolding decode encode
decode-encode [] h = refl
decode-encode (a ∷ []) h =
    let p : a / 4 * 4 + a % 4 * 16 / 16 ≡ a = omega arith in
    rw (value-symbol (a / 4) (omega (arith, h.0)), value-symbol (a % 4 * 16) (omega arith), p) refl
decode-encode (a ∷ b ∷ []) h =
    let (ha, (hb, _)) = h in
    let q : (a % 4 * 16 + b / 16) % 16 * 16 + b % 16 * 4 / 4 ≡ b = omega arith in
    rw
      (
        value-symbol (a / 4) (omega arith),
        value-symbol (a % 4 * 16 + b / 16) (omega arith),
        value-symbol (b % 16 * 4) (omega arith),
        first_byte a b ha hb,
        q,
      )
      refl
decode-encode (a ∷ b ∷ c ∷ rest) h =
    let (ha, (hb, (hc, hrest))) = h in
    rw
      (
        value-symbol (a / 4) (omega arith),
        value-symbol (a % 4 * 16 + b / 16) (omega arith),
        value-symbol (b % 16 * 4 + c / 64) (omega arith),
        value-symbol (c % 64) (omega arith),
        first_byte a b ha hb,
        second_byte a b c ha hb hc,
        third_byte b c hb hc,
      )
      (ap (λ r. a ∷ b ∷ c ∷ r) (decode-encode rest hrest))

pub encode-injective : (v w : Text) → IsBytes v → IsBytes w → encode v ≡ encode w → v ≡ w
encode-injective v w hv hw e = sym (decode-encode v hv) ∙ (ap decode e ∙ decode-encode w hw)

-- No character of an encoding is a colon.
pub encode-colon : (v : Text) → IsBytes v → contains 0x3a (encode v) ≡ false
unfolding encode contains
encode-colon [] h = refl
encode-colon (a ∷ []) h = ground (
  arith,
  symbol-ne_colon (a / 4) (omega (arith, h.0)),
  symbol-ne_colon (a % 4 * 16) (omega arith),
)
encode-colon (a ∷ b ∷ []) h =
    let (ha, (hb, _)) = h in
    ground (
      arith,
      symbol-ne_colon (a / 4) (omega arith),
      symbol-ne_colon (a % 4 * 16 + b / 16) (omega arith),
      symbol-ne_colon (b % 16 * 4) (omega arith),
    )
encode-colon (a ∷ b ∷ c ∷ rest) h =
    let (ha, (hb, (hc, hrest))) = h in
    ground (
      arith,
      symbol-ne_colon (a / 4) (omega arith),
      symbol-ne_colon (a % 4 * 16 + b / 16) (omega arith),
      symbol-ne_colon (b % 16 * 4 + c / 64) (omega arith),
      symbol-ne_colon (c % 64) (omega arith),
      encode-colon rest hrest,
    )
