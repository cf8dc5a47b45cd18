-- ===== src/Model/Lease.antt =====
-- constants.go: the limits, and the rounding of a lease TTL to whole milliseconds.
use stable_placement.Base.{
  ℕ, zero, suc, ◌+◌, ◌-◌, ◌*◌, ◌/◌, ◌%◌, ◌^◌, ◌<◌, ◌≡◌, ltb, ◌==◌, not, ℤ, if◌then◌else◌, arith,
  Option, none, some, ◌&&◌, Option-cases, inl, inr,
}

abbrev pub max_identity_part_bytes : ℕ
max_identity_part_bytes = 128

-- `DefaultNodeLeaseConfig`: a minute, in nanoseconds
abbrev pub default_node_lease_ttl : ℕ
default_node_lease_ttl = 60_000_000_000

abbrev pub max_grain_id_bytes : ℕ
max_grain_id_bytes = 256

abbrev pub initial_placement_version : ℕ
initial_placement_version = 1

abbrev pub initial_node_lease_version : ℕ
initial_node_lease_version = 1

-- time.Millisecond
abbrev pub millisecond : ℕ
millisecond = 1_000_000

abbrev pub max_node_lease_ttl_millis : ℕ
max_node_lease_ttl_millis = (2 ^ 63 - 1) / millisecond

-- `t.UnixMilli()` and `d.Milliseconds()`
abbrev pub unix_milli : ℕ → ℕ
unix_milli t = t / millisecond

-- `NormalizeNodeLeaseConfig`; `none` is ErrInvalidNodeLeaseTTL. The product stays inside an int64.
unfoldable pub normalize_ttl : ℤ → Option ℕ
normalize_ttl (ℤ.negsuc n) = none
normalize_ttl (ℤ.pos zero) = none
normalize_ttl (ℤ.pos (suc n)) =
    let ttl = suc n in
    let ttl_millis = ttl / millisecond in
    if not (ttl % millisecond == 0) && ltb ttl_millis max_node_lease_ttl_millis
    then some ((ttl_millis + 1) * millisecond)
    else some (ttl_millis * millisecond)

-- `now.Add(time.UnixMilli(m).Sub(now))`: the difference of two times saturates at the ends of an
-- int64, some 292 years.
unfoldable pub deadline_from : ℕ → ℕ → ℕ
deadline_from now m =
    if ltb (m * millisecond) now
    then now - (if ltb (2 ^ 63) (now - m * millisecond) then 2 ^ 63 else now - m * millisecond)
    else (now
        + (if ltb (2 ^ 63 - 1) (m * millisecond - now) then 2 ^ 63 - 1 else m * millisecond - now))

bounds_of :
    (ttl r : ℕ)
    → 0 < ttl
    → ttl < 2 ^ 63
    → normalize_ttl (ℤ.pos ttl) ≡ some r
    → (0 < r)
      × (r < 2 ^ 63)
      × (r % millisecond ≡ 0)
      × (r < ttl + millisecond)
      × (ttl < r + millisecond)
unfolding normalize_ttl
bounds_of zero r h g e = absurd (omega arith)
bounds_of (suc n) r h g e = ground arith

accepted : (ttl : ℕ) → 0 < ttl → (r : ℕ) × (normalize_ttl (ℤ.pos ttl) ≡ some r)
unfolding normalize_ttl
accepted zero h = absurd (omega arith)
accepted (suc n) h = elim (Option-cases (normalize_ttl (ℤ.pos (suc n)))) [
  | inl e ↦ absurd (ground arith)
  | inr (r, e) ↦ (r, e)
]

-- Every positive TTL that fits an int64 is accepted, as a whole number of milliseconds that is
-- positive, fits an int64 and is less than a millisecond away from it.
pub normalize_ttl_bounds :
    (ttl : ℕ)
    → 0 < ttl
    → ttl < 2 ^ 63
    → (r : ℕ) × (normalize_ttl (ℤ.pos ttl) ≡ some r)
      × (0 < r)
      × (r < 2 ^ 63)
      × (r % millisecond ≡ 0)
      × (r < ttl + millisecond)
      × (ttl < r + millisecond)
normalize_ttl_bounds ttl h g =
    let (r, e) = accepted ttl h in
    let (a, b, c, d, f) = bounds_of ttl r h g e in (r, e, a, b, c, d, f)
