-- ===== src/Model/Ids.antt =====
-- model.go: grains, and the ids of placements. What `rand.Read` fills in is an argument.
use stable_placement.Base.{
  ◌≡◌, refl, sym, ap, ◌∙◌, ℕ, ◌+◌, ◌-◌, ◌*◌, ◌/◌, ◌%◌, ◌<◌, ltb, [], ◌∷◌, Text, All, if◌then◌else◌,
  arith,
}
use stable_placement.Model.{Result, ok, ◌>>=◌}

pub record Grain : Type 0 where
  pub grain_id : Text
  pub kind : Text
  pub target_node_type : Text
  pub target_node_group : Text

abbrev pub placement_id_byte_length : ℕ
placement_id_byte_length = 16

unfoldable pub hex_digit : ℕ → ℕ
hex_digit v = if ltb v 10 then 0x30 + v else 0x57 + v

-- `hex.EncodeToString`
unfoldable pub hex_encode : Text → Text
unfolding hex_digit
hex_encode [] = []
hex_encode (b ∷ bs) = hex_digit (b / 16) ∷ hex_digit (b % 16) ∷ hex_encode bs

-- `NewPlacementID`, from the random bytes or the error of `rand.Read`
unfoldable pub new_placement_id : Result Text → Result Text
unfolding hex_encode
new_placement_id random = do id ← random; ok (hex_encode id)

hex_value : ℕ → ℕ
hex_value c = if ltb c 0x3a then c - 0x30 else c - 0x57

hex_decode : Text → Text
hex_decode [] = []
hex_decode (c ∷ []) = []
hex_decode (c ∷ d ∷ rest) = (hex_value c * 16 + hex_value d) ∷ hex_decode rest

hex_value-hex_digit : (v : ℕ) → v < 16 → hex_value (hex_digit v) ≡ v
unfolding hex_value hex_digit
hex_value-hex_digit v h = ground arith

-- A text of bytes is read back from its hexadecimal digits.
hex_decode-hex_encode :
    (bytes : Text) → All (λ (b : ℕ). b < 256) bytes → hex_decode (hex_encode bytes) ≡ bytes
unfolding hex_decode hex_encode
hex_decode-hex_encode [] h = refl
hex_decode-hex_encode (b ∷ bs) h =
    let high = hex_value-hex_digit (b / 16) (omega (arith, h.0)) in
    let low = hex_value-hex_digit (b % 16) (omega arith) in
    let whole : hex_value (hex_digit (b / 16)) * 16 + hex_value (hex_digit (b % 16)) ≡ b =
      omega (arith, high, low) in
    ap (λ (c : ℕ). c ∷ hex_decode (hex_encode bs)) whole ∙ ap (◌∷◌ b) (hex_decode-hex_encode bs h.1)

-- Placements get different ids if the random bytes are different.
pub new_placement_id-injective :
    (a b id : Text)
    → All (λ (x : ℕ). x < 256) a
    → All (λ (x : ℕ). x < 256) b
    → new_placement_id (ok a) ≡ ok id
    → new_placement_id (ok b) ≡ ok id
    → a ≡ b
unfolding new_placement_id
new_placement_id-injective a b id ha hb ea eb =
    let same_digits : hex_encode a ≡ hex_encode b = cc in
    sym (hex_decode-hex_encode a ha) ∙ (ap hex_decode same_digits ∙ hex_decode-hex_encode b hb)
