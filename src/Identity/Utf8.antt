-- ===== src/Identity/Utf8.antt =====
-- What identity.go uses of the packages unicode/utf8 and strings: the runes of a string, its
-- validity, surrounding white space and `strings.Split`.
use stable_placement.Base.{
  subst, Option-cases, ℕ, zero, suc, ◌+◌, ◌-◌, ◌*◌, ◌≤◌, ◌≡◌, refl, ◌⊎◌, ltb, leb, ◌==◌,
  if◌then◌else◌, Bool, true, false, ◌&&◌, ◌||◌, Option, none, some, List, [], ◌∷◌, ◌++◌, Text,
  arith, inl, inr,
}

-- Between runes, or inside one: how many bytes are still to come after the next, the range of the
-- next byte, and the bits read so far.
pub data Reader : Type 0 where
  start : Reader
  inside : ℕ → ℕ → ℕ → ℕ → Reader

pub data Fed : Type 0 where
  bad : Fed
  more : Reader → Fed
  rune : ℕ → Fed

in_range : ℕ → ℕ → ℕ → Bool
in_range lo hi b = leb lo b && leb b hi

-- The table of first bytes of RFC 3629, with the ranges of the second.
lead : ℕ → Fed
unfolding in_range
lead b =
    if ltb b 0x80
    then rune b
    else if in_range 0xc2 0xdf b
    then more (inside 0 0x80 0xbf (b - 0xc0))
    else if b == 0xe0
    then more (inside 1 0xa0 0xbf 0)
    else if b == 0xed
    then more (inside 1 0x80 0x9f 0xd)
    else if in_range 0xe1 0xef b
    then more (inside 1 0x80 0xbf (b - 0xe0))
    else if b == 0xf0
    then more (inside 2 0x90 0xbf 0)
    else if in_range 0xf1 0xf3 b
    then more (inside 2 0x80 0xbf (b - 0xf0))
    else if b == 0xf4
    then more (inside 2 0x80 0x8f 4)
    else bad

follow : ℕ → ℕ → ℕ → Fed
follow zero acc b = rune (acc * 64 + (b - 0x80))
follow (suc n) acc b = more (inside n 0x80 0xbf (acc * 64 + (b - 0x80)))

feed : Reader → ℕ → Fed
unfolding lead follow in_range
feed start b = lead b
feed (inside n lo hi acc) b = if in_range lo hi b then follow n acc b else bad

prepend : ℕ → Option (List ℕ) → Option (List ℕ)
prepend r none = none
prepend r (some rs) = some (r ∷ rs)

at_end : Reader → Option (List ℕ)
at_end start = some []
at_end (inside n lo hi acc) = none

unfoldable pub decode_from : Reader → Text → Option (List ℕ)
unfolding feed prepend at_end
decode_from s [] = at_end s
decode_from s (b ∷ bs) = elim (feed s b) [
  | bad ↦ none
  | more s' ↦ decode_from s' bs
  | rune r ↦ prepend r (decode_from start bs)
]

-- The runes of a valid string, and `none` where `utf8.ValidString` fails.
unfoldable pub decode : Text → Option (List ℕ)
unfolding decode_from
decode v = decode_from start v

-- `unicode.IsSpace`
unfoldable pub is_space : ℕ → Bool
unfolding in_range
is_space r =
    in_range 9 13 r
    || (r == 0x20
        || (r == 0x85
            || (r == 0xa0
                || (r == 0x1680
                    || (in_range 0x2000 0x200a r
                        || (r == 0x2028
                            || (r == 0x2029 || (r == 0x202f || (r == 0x205f || r == 0x3000)))))))))

starts_with_space : List ℕ → Bool
starts_with_space [] = false
starts_with_space (r ∷ rs) = is_space r

ends_with_space : List ℕ → Bool
ends_with_space [] = false
ends_with_space (r ∷ []) = is_space r
ends_with_space (r ∷ r' ∷ rs) = ends_with_space (r' ∷ rs)

-- `strings.TrimSpace(value) != value`, on the runes of the value: something is trimmed exactly
-- when the first or the last rune is white space.
unfoldable pub has_surrounding_space : List ℕ → Bool
unfolding is_space starts_with_space ends_with_space
has_surrounding_space rs = starts_with_space rs || ends_with_space rs

unfoldable pub contains : ℕ → List ℕ → Bool
contains b [] = false
contains b (c ∷ cs) = c == b || contains b cs

extend_first : ℕ → List Text → List Text
extend_first c [] = (c ∷ []) ∷ []
extend_first c (x ∷ xs) = (c ∷ x) ∷ xs

-- `strings.Split(s, sep)` for a separator of one byte.
unfoldable pub split : ℕ → Text → List Text
unfolding extend_first
split sep [] = [] ∷ []
split sep (c ∷ cs) = if c == sep then [] ∷ split sep cs else extend_first c (split sep cs)

pub split-append :
    (sep : ℕ) (xs ys : Text)
    → contains sep xs ≡ false
    → split sep (xs ++ sep ∷ ys) ≡ xs ∷ split sep ys
unfolding split contains
split-append sep [] ys h = ground arith
split-append sep (x ∷ xs) ys h = ground (arith, split-append sep xs ys)

pub split_whole : (sep : ℕ) (xs : Text) → contains sep xs ≡ false → split sep xs ≡ xs ∷ []
unfolding split contains
split_whole sep [] h = refl
split_whole sep (x ∷ xs) h = ground (arith, split_whole sep xs)

-- Continuation bytes are never ASCII.
abbrev Continues : Reader → Type 0
Continues start = Unit {0}
Continues (inside n lo hi acc) = 0x80 ≤ lo

abbrev FedContinues : Fed → Type 0
FedContinues bad = Unit {0}
FedContinues (more s) = Continues s
FedContinues (rune r) = Unit {0}

follow-FedContinues : (n acc b : ℕ) → FedContinues (follow n acc b)
unfolding follow
follow-FedContinues zero acc b = tt
follow-FedContinues (suc n) acc b = omega arith

lead-FedContinues : (b : ℕ) → FedContinues (lead b)
unfolding lead
lead-FedContinues b = ground arith

feed-FedContinues : (s : Reader) (b : ℕ) → FedContinues (feed s b)
unfolding feed
feed-FedContinues start b = lead-FedContinues b
feed-FedContinues (inside n lo hi acc) b = ground (arith, follow-FedContinues n acc b)

lead_ascii : (b : ℕ) → b ≤ 0x7f → lead b ≡ rune b
unfolding lead
lead_ascii b h = ground arith

feed_ascii : (s : Reader) (b : ℕ) → Continues s → b ≤ 0x7f → (feed s b ≡ rune b) ⊎ (feed s b ≡ bad)
unfolding feed
feed_ascii start b c h = inl (lead_ascii b h)
feed_ascii (inside n lo hi acc) b c h = inr (ground arith)

Fed-cases : (f : Fed) → (f ≡ bad) ⊎ ((s' : Reader) × (f ≡ more s')) ⊎ ((r : ℕ) × (f ≡ rune r))
Fed-cases bad = inl refl
Fed-cases (more s') = inr (inl (s', refl))
Fed-cases (rune r) = inr (inr (r, refl))

-- An ASCII byte of a valid string is one of its runes.
contains-decode_from :
    (b : ℕ) (s : Reader) (v : Text) {rs : List ℕ}
    → b ≤ 0x7f
    → Continues s
    → decode_from s v ≡ some rs
    → contains b v ≡ true
    → contains b rs ≡ true
unfolding decode_from contains
contains-decode_from b start [] h c e m = cc
contains-decode_from b (inside _ _ _ _) [] h c e m = cc
contains-decode_from b s (x ∷ v) {rs} h c e m = elim (Fed-cases (feed s x)) [
  | inl f ↦ ground arith
  | inr (inl (s', f)) ↦
      let k : Continues s' = subst FedContinues f (feed-FedContinues s x) in
      ground (arith, feed_ascii s b c h, contains-decode_from b s' v {rs = rs} h k)
  | inr (inr (r, f)) ↦ elim (Option-cases (decode_from start v)) [
    | inl g ↦ ground arith
    | inr (rs', g) ↦
        ground (arith, feed_ascii s b c h, contains-decode_from b start v {rs = rs'} h tt g)
  ]
]

pub contains-decode :
    (b : ℕ) (v : Text) {rs : List ℕ}
    → b ≤ 0x7f
    → decode v ≡ some rs
    → contains b v ≡ true
    → contains b rs ≡ true
unfolding decode
contains-decode b v h e m = contains-decode_from b start v h tt e m
