-- ===== src/Redis/Routes/Tests.antt =====
-- A resolution that meets a conflict first, and an instance of the theorem.
use stable_placement.Base.{
  ◌≡◌, refl, ℕ, zero, suc, ℤ, none, [], ◌∷◌, Text, text, text_eq, atoi, format_int, itoa, signed,
}
use stable_placement.Samples.{id_a, key_x, of_byte}
use stable_placement.Model.{Result, ok, PlacementStatus, ResolveRouteCommand}
use stable_placement.Identity.{new_grain_key, new_node_identity}
use stable_placement.Redis.Scripts.{RedisPlacement, placement_of, Item, ScriptResult}
use stable_placement.Redis.Routes.{
  ResolveTry, route_from, resolve_route_once, resolve_route_in_redis, resolve_tries, resolve_result,
  stored_owner, get_placement_raw,
}

abbrev cmd_x : ResolveRouteCommand
cmd_x = record {
  grain_id = of_byte 0x78;
  kind = of_byte 0x6b;
  target_node_type = of_byte 0x74;
  target_node_group = of_byte 0x67;
}

abbrev pub wire_x : RedisPlacement
wire_x = record {
  grain_id = of_byte 0x78;
  kind = of_byte 0x6b;
  grain_key = key_x;
  placement_id = of_byte 7;
  node_identity = id_a;
  owner_node_session_id = of_byte 1;
  version = 1;
  status = PlacementStatus.active;
  create_time_unix_milli = 0;
  update_time_unix_milli = 0;
}

abbrev pub decode_x : Text → Result RedisPlacement
decode_x raw = ok wire_x

abbrev conflict_try : ResolveTry
conflict_try = record {
  placement_id = ok (of_byte 7);
  stored = ok none;
  start = 0;
  result = ok (ScriptResult.status (text "conflict"));
  now = 0;
}

abbrev route_try : ResolveTry
route_try = record conflict_try {
  result = ok (
      ScriptResult.items
        (Item.string (text "{}") ∷ Item.int64 (ℤ.pos 4) ∷ Item.int64 (ℤ.pos 1000) ∷ []));
  start = 5;
  now = 6;
}

abbrev tries_x : ℕ → ResolveTry
tries_x zero = conflict_try
tries_x (suc i) = route_try

resolves_x :
    resolve_route_in_redis decode_x cmd_x tries_x
    ≡ ok (route_from (placement_of wire_x) 4 1_000_000_005)
unfolding resolve_route_in_redis new_grain_key new_node_identity resolve_tries resolve_route_once
    stored_owner get_placement_raw resolve_result text_eq atoi format_int itoa signed
resolves_x = refl
