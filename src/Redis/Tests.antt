-- ===== src/Redis/Tests.antt =====
-- A key as Redis shows it, and an instance of the theorem about keys.
use stable_placement.Base.{◌≡◌, refl, text, arith}
use stable_placement.Samples.{id_a}
use stable_placement.Redis.{node, key_of}
use stable_placement.Redis.Base64.{encode, IsBytes}
use stable_placement.Redis.Keys.{NameOfBytes, key_of-injective}

key_of-node : key_of (node id_a) ≡ text "sp:{stable-placement}:v2:node:dC9nL2E"
unfolding key_of encode text
key_of-node = refl

id_a-IsBytes : IsBytes id_a
id_a-IsBytes = (omega arith, (omega arith, (omega arith, (omega arith, (omega arith, tt)))))

key_of-injective_example : node id_a ≡ node id_a
unfolding NameOfBytes
key_of-injective_example = key_of-injective (node id_a) (node id_a) id_a-IsBytes id_a-IsBytes refl
