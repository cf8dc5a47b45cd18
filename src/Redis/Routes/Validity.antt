-- ===== src/Redis/Routes/Validity.antt =====
-- redis/directory.go: which try of ResolveRoute answers, and how long its route is valid.
use stable_placement.Base.{
  ◌≡◌, sym, ap, ◌∙◌, inl, inr, ℕ, ◌+◌, ◌*◌, ◌≤◌, ◌<◌, ltb, ℤ, List, [], ◌∷◌, Text, arith,
  Bool-cases, Option-cases, if◌then◌else◌, signed, atoi, subst,
}
use stable_placement.Model.{Result, Result-cases, ok, err, Error, PlacementRoute}
use stable_placement.Model.Lease.{max_node_lease_ttl_millis}
use stable_placement.Redis.Scripts.{
  RedisPlacement, placement_of, Item, ScriptResult, status, items, sprint, positive_item,
  add_duration, duration_of_millis, nanoseconds_per_millisecond,
}
use stable_placement.Redis.Routes.{
  route_from, remaining_item, valid_from, ResolveTry, stored_owner, get_placement_raw,
  resolve_items, resolve_result, resolve_route_once,
}

positive_item-pos : (e : Error) (x : Item) (n : ℕ) → positive_item e x ≡ ok n → 0 < n
unfolding positive_item
positive_item-pos e x n h = elim (Option-cases (atoi (sprint x))) [
  | inl q ↦ absurd (ground arith)
  | inr (ℤ.pos m, q) ↦ ground arith
  | inr (ℤ.negsuc m, q) ↦ absurd (ground arith)
]

remaining_item_bounds :
    (e : Error) (x : Item) (n : ℕ)
    → remaining_item e x ≡ ok n
    → (0 < n) × (n ≤ max_node_lease_ttl_millis)
unfolding remaining_item
remaining_item_bounds e x n h = elim (Result-cases (positive_item e x)) [
  | inr (f, q) ↦ absurd (ground arith)
  | inl (m, q) ↦ ground (arith, positive_item-pos e x m q)
]

-- No lease that passes is long enough to wrap.
duration_of_millis-exact :
    (n : ℕ)
    → n ≤ max_node_lease_ttl_millis
    → duration_of_millis n ≡ ℤ.pos (n * nanoseconds_per_millisecond)
unfolding duration_of_millis signed
duration_of_millis-exact n h = ground arith

valid_from-exact :
    (e : Error) (start remaining now valid_until : ℕ)
    → remaining ≤ max_node_lease_ttl_millis
    → valid_from e start remaining now ≡ ok valid_until
    → (valid_until ≡ start + remaining * nanoseconds_per_millisecond) × (now < valid_until)
unfolding valid_from
valid_from-exact e start remaining now valid_until le h =
    let exact = duration_of_millis-exact remaining le in
    let until : (if ltb now (start + remaining * nanoseconds_per_millisecond)
          then ok (start + remaining * nanoseconds_per_millisecond)
          else err e)
        ≡ ok valid_until =
      subst
        (λ (d : ℤ).
          (if ltb now (add_duration start d) then ok (add_duration start d) else err e)
          ≡ ok valid_until)
        exact h in
    elim (Bool-cases (ltb now (start + remaining * nanoseconds_per_millisecond))) [
      | inl b ↦ ground arith
      | inr b ↦ absurd (ground arith)
    ]

-- Why a route is valid: the script gave a list of the stored placement, a positive lease version and the
-- remaining milliseconds, positive and at most the longest lease; the route ends so long after the time
-- taken before the script ran, and has not ended when it is returned.
pub record ValidRoute (decode : Text → Result RedisPlacement) (t : ResolveTry)
    (route : PlacementRoute) : Type 0 where
  pub placement : Item
  pub version : Item
  pub remaining : Item
  pub answer : t.result ≡ ok (items (placement ∷ version ∷ remaining ∷ []))
  pub wire : RedisPlacement
  pub decoded : decode (sprint placement) ≡ ok wire
  pub lease_version : ℕ
  pub lease_version_pos : 0 < lease_version
  pub millis : ℕ
  pub millis_pos : 0 < millis
  pub millis_bound : millis ≤ max_node_lease_ttl_millis
  pub is_route :
      route
      ≡ route_from
          (placement_of wire)
          lease_version
          (t.start + millis * nanoseconds_per_millisecond)
  pub not_over : t.now < route.valid_until

module _ (decode : Text → Result RedisPlacement) (t : ResolveTry) (route : PlacementRoute) where
  three-ValidRoute :
      (p version remaining : Item)
      → t.result ≡ ok (items (p ∷ version ∷ remaining ∷ []))
      → resolve_items decode t.start t.now (p ∷ version ∷ remaining ∷ []) ≡ ok route
      → ValidRoute decode t route
  three-ValidRoute p version remaining answer h = elim (Result-cases (decode (sprint p))) [
    | inr (e, q) ↦ absurd (ground arith)
    | inl (wire, q) ↦ elim (Result-cases (positive_item Error.invalid_lease_version version)) [
      | inr (e, v) ↦ absurd (ground arith)
      | inl (lease_version, v) ↦
          elim (Result-cases (remaining_item Error.placement_owner_unavailable remaining)) [
            | inr (e, m) ↦ absurd (ground arith)
            | inl (millis, m) ↦
                elim (Result-cases
                  (valid_from Error.placement_owner_unavailable t.start millis t.now)) [
                    | inr (e, u) ↦ absurd (ground arith)
                    | inl (valid_until, u) ↦
                        let (pos, le) =
                          remaining_item_bounds Error.placement_owner_unavailable remaining millis
                            m in
                        let (exact, before) =
                          valid_from-exact Error.placement_owner_unavailable t.start millis t.now
                            valid_until le u in
                        let found : route
                            ≡ route_from (placement_of wire) lease_version valid_until =
                          ground arith in
                        record {
                          placement = p;
                          version = version;
                          remaining = remaining;
                          answer = answer;
                          wire = wire;
                          decoded = q;
                          lease_version = lease_version;
                          lease_version_pos =
                              positive_item-pos Error.invalid_lease_version version lease_version v;
                          millis = millis;
                          millis_pos = pos;
                          millis_bound = le;
                          is_route =
                              found ∙ ap (route_from (placement_of wire) lease_version) exact;
                          not_over =
                              subst (λ (x : PlacementRoute). t.now < x.valid_until) (sym found)
                                before;
                        }
                  ]
          ]
    ]
  ]

  items-ValidRoute :
      (xs : List Item)
      → t.result ≡ ok (items xs)
      → resolve_items decode t.start t.now xs ≡ ok route
      → ValidRoute decode t route
  items-ValidRoute [] q h = absurd (ground arith)
  items-ValidRoute (a ∷ []) q h = absurd (ground arith)
  items-ValidRoute (a ∷ b ∷ []) q h = absurd (ground arith)
  items-ValidRoute (a ∷ b ∷ c ∷ []) q h = three-ValidRoute a b c q h
  items-ValidRoute (a ∷ b ∷ c ∷ d ∷ xs) q h = absurd (ground arith)

  result-ValidRoute :
      (r : ScriptResult)
      → t.result ≡ ok r
      → resolve_result decode t.start t.now r ≡ ok route
      → ValidRoute decode t route
  unfolding resolve_result
  result-ValidRoute (status s) q h = absurd (ground arith)
  result-ValidRoute (items xs) q h = items-ValidRoute xs q h
  result-ValidRoute (ScriptResult.other s) q h = absurd (ground arith)

  pub once-ValidRoute : resolve_route_once decode t ≡ ok route → ValidRoute decode t route
  unfolding resolve_route_once
  once-ValidRoute h = elim (Result-cases t.placement_id) [
    | inr (e, q) ↦ absurd (ground arith)
    | inl (id, q) ↦ elim (Result-cases (stored_owner (get_placement_raw decode t.stored))) [
      | inr (e, o) ↦ absurd (ground arith)
      | inl (owner, o) ↦ elim (Result-cases t.result) [
        | inr (e, r) ↦ absurd (ground arith)
        | inl (result, r) ↦ result-ValidRoute result r (ground arith)
      ]
    ]
  ]
