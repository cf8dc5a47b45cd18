-- ===== src/Identity/Parts.antt =====
-- A validated name has no separator, so that grain keys and node identities come apart again.
use stable_placement.Base.{
  ℕ, ◌≡◌, refl, ◌≤◌, ◌<◌, Bool-cases, inl, inr, true, false, Option, none, some, List, [], ◌∷◌,
  ◌++◌, Text, length, any, arith, sym,
}
use stable_placement.Model.{Result, ok, err, ◌>>◌}
use stable_placement.Model.Lease.{max_identity_part_bytes, max_grain_id_bytes}
use stable_placement.Identity.Utf8.{
  decode, contains, contains-decode, split, split-append, split_whole, has_surrounding_space,
}
use stable_placement.Identity.{
  separator, is_reserved, validate_runes, validate_identity_part, new_grain_key, new_node_identity,
  part, text_at, node_type_of, node_group_of, node_name_of,
}

not-any-reserved :
    (b : ℕ) (rs : List ℕ)
    → is_reserved b ≡ true
    → any is_reserved rs ≡ false
    → contains b rs ≡ false
unfolding any contains is_reserved
not-any-reserved b [] h e = refl
not-any-reserved b (r ∷ rs) h e = ground (arith, not-any-reserved b rs h)

is_reserved_ascii : (b : ℕ) → is_reserved b ≡ true → b ≤ 0x7f
unfolding is_reserved
is_reserved_ascii b h = ground arith

validate_runes_reserved :
    (o : Option (List ℕ)) (b : ℕ)
    → validate_runes o ≡ ok tt
    → is_reserved b ≡ true
    → (rs : List ℕ) × (o ≡ some rs) × (contains b rs ≡ false)
unfolding validate_runes
validate_runes_reserved none b h r = cc
validate_runes_reserved (some rs) b h r =
    (rs, refl, not-any-reserved b rs r (unfold has_surrounding_space in ground arith))

-- A name that passes the validation is not empty, is not longer than the limit, and has no byte
-- that is a control character, the delete character or the separator.
pub validate_identity_part_bytes :
    (value : Text) (max b : ℕ)
    → validate_identity_part value max ≡ ok tt
    → is_reserved b ≡ true
    → (contains b value ≡ false) × (0 < length value) × (length value ≤ max)
unfolding validate_identity_part
validate_identity_part_bytes value max b h r =
    let valid : validate_runes (decode value) ≡ ok tt = ground arith in
    let (rs, read, absent) = validate_runes_reserved (decode value) b valid r in
    (
      elim (Bool-cases (contains b value)) [
        | inl found ↦
            ground (arith, contains-decode b value {rs = rs} (is_reserved_ascii b r) read found)
        | inr missing ↦ missing
      ],
      ground arith,
      ground arith,
    )

-- The separator is reserved.
separator-absent :
    (value : Text) (max : ℕ)
    → validate_identity_part value max ≡ ok tt
    → contains separator value ≡ false
unfolding is_reserved
separator-absent value max h = (validate_identity_part_bytes value max separator h refl).0

>>-eq-ok :
    {A : Type 0} (m : Result (Unit {0})) (k : Result A) {a : A}
    → (m >> k) ≡ ok a
    → (m ≡ ok tt) × (k ≡ ok a)
>>-eq-ok (ok tt) k h = (refl, h)
>>-eq-ok (err e) k h = cc

ok-injective : {A : Type 0} {a b : A} → ok a ≡ ok b → a ≡ b
ok-injective h = cc

grain_key_inverse :
    (k g key : Text)
    → new_grain_key k g ≡ ok key
    → (split separator key ≡ k ∷ g ∷ []) × (key ≡ k ++ separator ∷ g)
unfolding new_grain_key
grain_key_inverse k g key h =
    let (hk, h') = >>-eq-ok (validate_identity_part k max_identity_part_bytes) _ h in
    let (hg, e) = >>-eq-ok (validate_identity_part g max_grain_id_bytes) _ h' in
    let shape : k ++ separator ∷ g ≡ key = ok-injective e in
    (
      rw (
        ← shape,
        split-append separator k g (separator-absent k max_identity_part_bytes hk),
        split_whole separator g (separator-absent g max_grain_id_bytes hg),
      ),
      sym shape,
    )

-- Two accepted pairs of a kind and a grain id with the same grain key are the same pair.
pub new_grain_key-injective :
    (k g k' g' key : Text)
    → new_grain_key k g ≡ ok key
    → new_grain_key k' g' ≡ ok key
    → (k ≡ k') × (g ≡ g')
new_grain_key-injective k g k' g' key h h' =
    let (e, _) = grain_key_inverse k g key h in
    let (e', _) = grain_key_inverse k' g' key h' in (cc, cc)

-- The parts of an accepted node identity are the type, the group and the name that it was made of.
pub new_node_identity-parts :
    (t g n identity : Text)
    → new_node_identity t g n ≡ ok identity
    → (node_type_of identity ≡ t) × (node_group_of identity ≡ g) × (node_name_of identity ≡ n)
unfolding new_node_identity part text_at
new_node_identity-parts t g n identity h =
    let (ht, h1) = >>-eq-ok (validate_identity_part t max_identity_part_bytes) _ h in
    let (hg, h2) = >>-eq-ok (validate_identity_part g max_identity_part_bytes) _ h1 in
    let (hn, e) = >>-eq-ok (validate_identity_part n max_identity_part_bytes) _ h2 in
    let shape : t ++ separator ∷ (g ++ separator ∷ n) ≡ identity = ok-injective e in
    let parts : split separator identity ≡ t ∷ g ∷ n ∷ [] = rw (
      ← shape,
      split-append separator t (g ++ separator ∷ n) (separator-absent t max_identity_part_bytes ht),
      split-append separator g n (separator-absent g max_identity_part_bytes hg),
      split_whole separator n (separator-absent n max_identity_part_bytes hn),
    ) in
    (rw parts, rw parts, rw parts)
