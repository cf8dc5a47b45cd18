-- ===== src/Redis/Keys.antt =====
-- Names in Redis do not collide.
use mathlib.Core.Path.{ap₂}
use stable_placement.Base.{
  ◌≡◌, refl, sym, ap, subst, ◌∙◌, false, if◌then◌else◌, List, [], ◌∷◌, ◌++◌, Text, text, text_eq,
  same, All,
}
use stable_placement.Identity.Utf8.{split, contains, split-append, split_whole}
use stable_placement.Redis.Base64.{encode, encode-colon, IsBytes, decode, decode-encode}
use stable_placement.Redis.{
  KeyName, placement, placement_node, node, nodes, invalid_nodes, node_lease, round_robin,
  events_stream, events_pubsub, audit_stream, sequence, consumer_group, key_of,
}

-- The texts of a name.
map_name : (Text → Text) → KeyName → KeyName
map_name f (placement a) = placement (f a)
map_name f (placement_node a) = placement_node (f a)
map_name f (node a) = node (f a)
map_name f (nodes a b) = nodes (f a) (f b)
map_name f (invalid_nodes a b) = invalid_nodes (f a) (f b)
map_name f (node_lease a b) = node_lease (f a) (f b)
map_name f (round_robin a b) = round_robin (f a) (f b)
map_name f events_stream = events_stream
map_name f events_pubsub = events_pubsub
map_name f audit_stream = audit_stream
map_name f sequence = sequence
map_name f (consumer_group a b) = consumer_group (f a) (f b)

-- The texts of a name are made of bytes.
unfoldable pub NameOfBytes : KeyName → Type 0
NameOfBytes (placement a) = IsBytes a
NameOfBytes (placement_node a) = IsBytes a
NameOfBytes (node a) = IsBytes a
NameOfBytes (nodes a b) = IsBytes a × IsBytes b
NameOfBytes (invalid_nodes a b) = IsBytes a × IsBytes b
NameOfBytes (node_lease a b) = IsBytes a × IsBytes b
NameOfBytes (round_robin a b) = IsBytes a × IsBytes b
NameOfBytes events_stream = Unit
NameOfBytes events_pubsub = Unit
NameOfBytes audit_stream = Unit
NameOfBytes sequence = Unit
NameOfBytes (consumer_group a b) = IsBytes a × IsBytes b

-- The parts of a name between the colons, of the encoded texts.
in_namespace : List Text → List Text
in_namespace parts = text "sp" ∷ text "{stable-placement}" ∷ text "v2" ∷ parts

parts_of : KeyName → List Text
unfolding in_namespace
parts_of (placement a) = in_namespace (text "placement" ∷ a ∷ [])
parts_of (placement_node a) = in_namespace (text "placement" ∷ text "node" ∷ a ∷ [])
parts_of (node a) = in_namespace (text "node" ∷ a ∷ [])
parts_of (nodes a b) = in_namespace (text "nodes" ∷ a ∷ b ∷ [])
parts_of (invalid_nodes a b) = in_namespace (text "invalid" ∷ a ∷ b ∷ [])
parts_of (node_lease a b) = in_namespace (text "node_lease" ∷ a ∷ b ∷ [])
parts_of (round_robin a b) = in_namespace (text "strategy" ∷ text "round_robin" ∷ a ∷ b ∷ [])
parts_of events_stream = in_namespace (text "events" ∷ text "stream" ∷ [])
parts_of events_pubsub = in_namespace (text "events" ∷ text "pubsub" ∷ [])
parts_of audit_stream = in_namespace (text "audit" ∷ text "stream" ∷ [])
parts_of sequence = in_namespace (text "sequence" ∷ [])
parts_of (consumer_group a b) = text "sp" ∷ text "v2" ∷ text "consumer" ∷ a ∷ b ∷ []

join : List Text → Text
join [] = []
join (x ∷ []) = x
join (x ∷ y ∷ rest) = x ++ 0x3a ∷ join (y ∷ rest)

key_of-parts : (x : KeyName) → key_of x ≡ join (parts_of (map_name encode x))
unfolding key_of map_name parts_of join text in_namespace
key_of-parts (placement a) = refl
key_of-parts (placement_node a) = refl
key_of-parts (node a) = refl
key_of-parts (nodes a b) = refl
key_of-parts (invalid_nodes a b) = refl
key_of-parts (node_lease a b) = refl
key_of-parts (round_robin a b) = refl
key_of-parts events_stream = refl
key_of-parts events_pubsub = refl
key_of-parts audit_stream = refl
key_of-parts sequence = refl
key_of-parts (consumer_group a b) = refl

-- No part has a colon.
Plain : List Text → Type 0
Plain parts = All (λ x. contains 0x3a x ≡ false) parts

split-join :
    (x : Text) (rest : List Text) → Plain (x ∷ rest) → split 0x3a (join (x ∷ rest)) ≡ x ∷ rest
unfolding join Plain
split-join x [] h = split_whole 0x3a x h.0
split-join x (y ∷ rest) h =
    split-append 0x3a x (join (y ∷ rest)) h.0 ∙ ap (◌∷◌ x) (split-join y rest h.1)

-- The name that parts are those of.
read_two : Text → Text → KeyName
read_two p a =
    if same p (text "placement")
    then placement a
    else if same p (text "node")
    then node a
    else if same p (text "audit")
    then audit_stream
    else if same a (text "stream")
    then events_stream
    else events_pubsub

read_three : Text → Text → Text → KeyName
read_three p a b =
    if same p (text "placement")
    then placement_node b
    else if same p (text "nodes")
    then nodes a b
    else if same p (text "invalid")
    then invalid_nodes a b
    else node_lease a b

read : List Text → KeyName
unfolding read_two read_three
read (s ∷ h ∷ v ∷ p ∷ a ∷ []) = if same h (text "v2") then consumer_group p a else read_two p a
read (s ∷ h ∷ v ∷ p ∷ a ∷ b ∷ []) = read_three p a b
read (s ∷ h ∷ v ∷ p ∷ q ∷ a ∷ b ∷ []) = round_robin a b
read other = sequence

read-parts_of : (x : KeyName) → read (parts_of x) ≡ x
unfolding read parts_of text text_eq in_namespace
read-parts_of (placement a) = refl
read-parts_of (placement_node a) = refl
read-parts_of (node a) = refl
read-parts_of (nodes a b) = refl
read-parts_of (invalid_nodes a b) = refl
read-parts_of (node_lease a b) = refl
read-parts_of (round_robin a b) = refl
read-parts_of events_stream = refl
read-parts_of events_pubsub = refl
read-parts_of audit_stream = refl
read-parts_of sequence = refl
read-parts_of (consumer_group a b) = refl

parts-Plain : (x : KeyName) → NameOfBytes x → Plain (parts_of (map_name encode x))
unfolding parts_of map_name Plain NameOfBytes contains text in_namespace
parts-Plain (placement a) h = (refl, (refl, (refl, (refl, (encode-colon a h, tt)))))
parts-Plain (placement_node a) h = (refl, (refl, (refl, (refl, (refl, (encode-colon a h, tt))))))
parts-Plain (node a) h = (refl, (refl, (refl, (refl, (encode-colon a h, tt)))))
parts-Plain (nodes a b) h =
    (refl, (refl, (refl, (refl, (encode-colon a h.0, (encode-colon b h.1, tt))))))
parts-Plain (invalid_nodes a b) h =
    (refl, (refl, (refl, (refl, (encode-colon a h.0, (encode-colon b h.1, tt))))))
parts-Plain (node_lease a b) h =
    (refl, (refl, (refl, (refl, (encode-colon a h.0, (encode-colon b h.1, tt))))))
parts-Plain (round_robin a b) h =
    (refl, (refl, (refl, (refl, (refl, (encode-colon a h.0, (encode-colon b h.1, tt)))))))
parts-Plain events_stream h = (refl, (refl, (refl, (refl, (refl, tt)))))
parts-Plain events_pubsub h = (refl, (refl, (refl, (refl, (refl, tt)))))
parts-Plain audit_stream h = (refl, (refl, (refl, (refl, (refl, tt)))))
parts-Plain sequence h = (refl, (refl, (refl, (refl, tt))))
parts-Plain (consumer_group a b) h =
    (refl, (refl, (refl, (encode-colon a h.0, (encode-colon b h.1, tt)))))

decoded : (x : KeyName) → NameOfBytes x → map_name decode (map_name encode x) ≡ x
unfolding map_name NameOfBytes
decoded (placement a) h = ap placement (decode-encode a h)
decoded (placement_node a) h = ap placement_node (decode-encode a h)
decoded (node a) h = ap node (decode-encode a h)
decoded (nodes a b) h = ap₂ nodes (decode-encode a h.0) (decode-encode b h.1)
decoded (invalid_nodes a b) h = ap₂ invalid_nodes (decode-encode a h.0) (decode-encode b h.1)
decoded (node_lease a b) h = ap₂ node_lease (decode-encode a h.0) (decode-encode b h.1)
decoded (round_robin a b) h = ap₂ round_robin (decode-encode a h.0) (decode-encode b h.1)
decoded events_stream h = refl
decoded events_pubsub h = refl
decoded audit_stream h = refl
decoded sequence h = refl
decoded (consumer_group a b) h = ap₂ consumer_group (decode-encode a h.0) (decode-encode b h.1)

parts-cons : (x : KeyName) → (head : Text) × (tail : List Text) × (parts_of x ≡ head ∷ tail)
unfolding parts_of in_namespace
parts-cons (placement a) = (_, _, refl)
parts-cons (placement_node a) = (_, _, refl)
parts-cons (node a) = (_, _, refl)
parts-cons (nodes a b) = (_, _, refl)
parts-cons (invalid_nodes a b) = (_, _, refl)
parts-cons (node_lease a b) = (_, _, refl)
parts-cons (round_robin a b) = (_, _, refl)
parts-cons events_stream = (_, _, refl)
parts-cons events_pubsub = (_, _, refl)
parts-cons audit_stream = (_, _, refl)
parts-cons sequence = (_, _, refl)
parts-cons (consumer_group a b) = (_, _, refl)

split-Plain :
    (parts : List Text) (head : Text) (tail : List Text)
    → parts ≡ head ∷ tail
    → Plain parts
    → split 0x3a (join parts) ≡ parts
split-Plain parts head tail e h =
    subst (λ ps. split 0x3a (join ps) ≡ ps) (sym e) (split-join head tail (subst Plain e h))

-- The parts of a key read back to its name.
key_of-read : (x : KeyName) → NameOfBytes x → map_name decode (read (split 0x3a (key_of x))) ≡ x
key_of-read x h =
    let (head, tail, e) = parts-cons (map_name encode x) in
    let parts : split 0x3a (key_of x) ≡ parts_of (map_name encode x) =
      ap (split 0x3a) (key_of-parts x)
      ∙ split-Plain (parts_of (map_name encode x)) head tail e (parts-Plain x h) in
    ap (λ ps. map_name decode (read ps)) parts
    ∙ (ap (map_name decode) (read-parts_of (map_name encode x)) ∙ decoded x h)

-- No two names collide in Redis: two names, of any kinds and with any texts of bytes in them, that
-- make the same key are the same name.
pub key_of-injective : (x y : KeyName) → NameOfBytes x → NameOfBytes y → key_of x ≡ key_of y → x ≡ y
key_of-injective x y h g e =
    sym (key_of-read x h) ∙ (ap (λ k. map_name decode (read (split 0x3a k))) e ∙ key_of-read y g)
