-- ===== src/Api/Keys.antt =====
-- The endpoints of API keys: `apiKeyCollection`, `apiKeyMember`, `authorizeKeyScope` and
-- `canManageKey` of internal/api/server.go.
pub mod Laws
use barq_control_plane.Base.{
  ℕ, String, ◌==◌, is_blank, if◌then◌else◌, Bool, true, false, not, ◌&&◌, ◌||◌, Option, none, some,
  List, [], ◌∷◌, Error, coded, forbidden, Result, ok, err,
}
use barq_control_plane.Base.Results.{is_ok}
use barq_control_plane.Base.Split.{split_cuts}
use barq_control_plane.Base.Suffix.{has_char}
use barq_control_plane.Base.Text.{trim_prefix}
use barq_control_plane.Auth.Types.{ServiceKey, ServiceKeyView}
use barq_control_plane.Auth.Keys.{list_keys, get_key, key_view}
use barq_control_plane.Auth.KeyChanges.{create_key, update_key, revoke_key, rotate_key}
use barq_control_plane.Auth.Access.{Principal, authorize, authorize_action}
use barq_control_plane.SyncRules.Types.{World}
use barq_control_plane.Api.Types.{
  HttpRequest, Response, ApiEnv, keys_answer, key_answer, created_key,
}
use barq_control_plane.Api.Replies.{
  route_error, decode_json, write_json, write_one_time_secret, write_error, write_no_content,
  not_allowed, attempt, after_store,
}

abbrev pub key_action : String
key_action = "keys:admin"

abbrev pub scope_error : Error
scope_error = coded forbidden "API key cannot create this key scope"

-- The test on a scope with `*`, of a principal that there is.
abbrev pub beyond : ServiceKey → String → String → Bool
beyond key tenant database =
    (tenant == "*" && (not (key.tenant == "*") || not (key.database == "*")))
    || (not (tenant == "*")
        && not (key.tenant == "*")
        && (not (key.tenant == tenant) || not (key.database == "*")))

abbrev pub cannot_grant : Principal → String → String → Bool
cannot_grant none tenant database = true
cannot_grant (some key) tenant database = beyond key tenant database

unfoldable pub authorize_key_scope : Principal → String → String → Result (Unit {0})
unfolding authorize
authorize_key_scope p tenant database =
    if (tenant == "*" || database == "*") && cannot_grant p tenant database
    then err scope_error
    else authorize p (record { tenant = tenant; database = database }) key_action

unfoldable pub can_manage_key : Principal → ServiceKey → Bool
unfolding authorize_key_scope
can_manage_key p key = is_ok (authorize_key_scope p key.tenant key.database)

unfoldable pub visible_keys : Principal → List ServiceKey → List ServiceKeyView
unfolding can_manage_key key_view
visible_keys p [] = []
visible_keys p (key ∷ keys) =
    let rest = visible_keys p keys in if can_manage_key p key then key_view key ∷ rest else rest

-- The id of a member and its action, or the empty one: `strings.SplitN(member, ":", 2)`.
abbrev pub id_and_action : List String → String × String
id_and_action [] = ("", "")
id_and_action (id ∷ []) = (id, "")
id_and_action (id ∷ action ∷ more) = (id, action)

abbrev pub member_parts : String → String → String × String
member_parts path prefix = id_and_action (split_cuts b':' 1 (trim_prefix path prefix))

module _ {V C : Type 0} (env : ApiEnv V C) (r : HttpRequest) (p : Principal) where
  abbrev pub get_keys : World V C → Response V × World V C
  get_keys w = attempt (authorize_action p key_action) w λ u.
      attempt (list_keys env.auth w.store) w
        λ keys. (write_json 200 (keys_answer (visible_keys p keys)), w)

  abbrev pub post_key : World V C → Response V × World V C
  post_key w = attempt (decode_json env.bodies.create_key r.body) w λ input.
      attempt (authorize_key_scope p input.tenant input.database) w λ u.
        after_store (λ created. write_one_time_secret 201 (created_key created)) w
          (create_key env.auth (r.clock 0) input w.store)

  unfoldable pub api_key_collection : World V C → Response V × World V C
  unfolding decode_json visible_keys authorize_action authorize_key_scope list_keys create_key
  api_key_collection w =
      if r.method == "GET"
      then get_keys w
      else if r.method == "POST"
      then post_key w
      else (not_allowed "GET, POST", w)

  abbrev pub patch_key : String → World V C → Response V × World V C
  patch_key id w = attempt (decode_json env.bodies.update_key r.body) w λ input.
      after_store (λ view. write_json 200 (key_answer view)) w
        (update_key env.auth (r.clock 0) id input w.store)

  abbrev pub act_on_key : String → World V C → Response V × World V C
  act_on_key id w =
      after_store (λ created. write_one_time_secret 201 (created_key created)) w
        (rotate_key env.auth (r.clock 0) id w.store)

  abbrev pub managed_key : String → String → ServiceKey → World V C → Response V × World V C
  managed_key id action key w =
      if not (is_blank action)
      then (if not (action == "rotate") || not (r.method == "POST")
          then (write_error route_error, w)
          else act_on_key id w)
      else if r.method == "GET"
      then (write_json 200 (key_answer (key_view key)), w)
      else if r.method == "PATCH"
      then patch_key id w
      else if r.method == "DELETE"
      then after_store (λ done. write_no_content) w (revoke_key env.auth (r.clock 0) id w.store)
      else (not_allowed "GET, PATCH, DELETE", w)

  abbrev pub found_key : String → String → ServiceKey → World V C → Response V × World V C
  found_key id action key w =
      if not (can_manage_key p key)
      then (write_error (coded forbidden "API key cannot manage this key scope"), w)
      else managed_key id action key w

  unfoldable pub api_key_member : World V C → Response V × World V C
  unfolding decode_json split_cuts trim_prefix has_char can_manage_key get_key update_key revoke_key
      rotate_key key_view
  api_key_member w =
      let (id, action) = member_parts r.path "/v1/admin/api-keys/" in
      if is_blank id || has_char b'/' id
      then (write_error route_error, w)
      else attempt (get_key env.auth w.store id) w λ key. found_key id action key w
