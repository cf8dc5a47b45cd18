-- ===== src/Redis/HashTag.antt =====
-- redis/keys.go: the hash tag, which puts all keys into one slot of a Redis cluster.
use stable_placement.Base.{
  ◌≡◌, refl, ℕ, ◌+◌, ◌*◌, ◌/◌, ◌%◌, ◌<◌, ◌==◌, ◌&&◌, ◌||◌, Bool, true, false, [], ◌∷◌, ◌++◌, Text,
  text, arith,
}
use stable_placement.Identity.Utf8.{contains}
use stable_placement.Redis.{
  KeyName, placement, placement_node, node, nodes, invalid_nodes, node_lease, round_robin,
  events_stream, events_pubsub, audit_stream, sequence, consumer_group, key_of,
}
use stable_placement.Redis.Base64.{symbol, encode}

abbrev pub hash_tag : Text
hash_tag = text "{stable-placement}"

-- `strings.Contains`
unfoldable pub starts_with : Text → Text → Bool
starts_with [] t = true
starts_with (b ∷ bs) [] = false
starts_with (b ∷ bs) (c ∷ cs) = b == c && starts_with bs cs

unfoldable pub contains_text : Text → Text → Bool
unfolding starts_with
contains_text sub [] = starts_with sub []
contains_text sub (c ∷ cs) = starts_with sub (c ∷ cs) || contains_text sub cs

-- `HasStablePlacementHashTag`
unfoldable pub has_stable_placement_hash_tag : Text → Bool
unfolding contains_text text
has_stable_placement_hash_tag key = contains_text hash_tag key

-- The name stands for a key or a channel in Redis, and not for a consumer group of a stream.
abbrev pub is_key : KeyName → Bool
is_key (consumer_group identity session) = false
is_key (placement key) = true
is_key (placement_node identity) = true
is_key (nodes t g) = true
is_key (node identity) = true
is_key (invalid_nodes t g) = true
is_key (node_lease t g) = true
is_key (round_robin t g) = true
is_key events_stream = true
is_key events_pubsub = true
is_key audit_stream = true
is_key sequence = true

symbol_small : (v : ℕ) → symbol v < 0x7b
unfolding symbol
symbol_small v = ground arith

encode-brace : (t : Text) → contains 0x7b (encode t) ≡ false
unfolding encode contains
encode-brace [] = refl
encode-brace (a ∷ []) = ground (arith, symbol_small (a / 4), symbol_small (a % 4 * 16))
encode-brace (a ∷ b ∷ []) =
    ground
      (arith, symbol_small (a / 4), symbol_small (a % 4 * 16 + b / 16), symbol_small (b % 16 * 4))
encode-brace (a ∷ b ∷ c ∷ rest) = ground (
  arith,
  symbol_small (a / 4),
  symbol_small (a % 4 * 16 + b / 16),
  symbol_small (b % 16 * 4 + c / 64),
  symbol_small (c % 64),
  encode-brace rest,
)

contains_text-brace : (bs t : Text) → contains 0x7b t ≡ false → contains_text (0x7b ∷ bs) t ≡ false
unfolding contains_text starts_with contains
contains_text-brace bs [] h = refl
contains_text-brace bs (c ∷ cs) h = ground (arith, contains_text-brace bs cs)

contains-append : (b : ℕ) (xs ys : Text) → contains b (xs ++ ys) ≡ contains b xs || contains b ys
unfolding contains
contains-append b [] ys = refl
contains-append b (x ∷ xs) ys = ground (arith, contains-append b xs ys)

group-plain :
    (identity session : Text) → contains 0x7b (key_of (consumer_group identity session)) ≡ false
unfolding key_of text contains
group-plain identity session = ground (
  arith,
  contains-append 0x7b (encode identity) (0x3a ∷ encode session),
  encode-brace identity,
  encode-brace session,
)

-- The names that carry the hash tag are those of the keys and channels, which a Redis cluster has to
-- keep in one slot for the scripts; the names of consumer groups do not.
pub key_of-tagged : (x : KeyName) → has_stable_placement_hash_tag (key_of x) ≡ is_key x
unfolding has_stable_placement_hash_tag contains_text starts_with key_of text
key_of-tagged (placement key) = refl
key_of-tagged (placement_node identity) = refl
key_of-tagged (nodes t g) = refl
key_of-tagged (node identity) = refl
key_of-tagged (invalid_nodes t g) = refl
key_of-tagged (node_lease t g) = refl
key_of-tagged (round_robin t g) = refl
key_of-tagged events_stream = refl
key_of-tagged events_pubsub = refl
key_of-tagged audit_stream = refl
key_of-tagged sequence = refl
key_of-tagged (consumer_group identity session) =
    contains_text-brace (text "stable-placement}") (key_of (consumer_group identity session))
      (group-plain identity session)
