-- ===== src/Api/Safety/Roots.antt =====
-- The administrator's access, through any traffic.
use barq_control_plane.Base.{ℕ, String, refl, ◌∙◌, some, List, [], ◌∷◌}
use barq_control_plane.Control.Store.{Store}
use barq_control_plane.Control.Store.Spared.{Spared}
use barq_control_plane.Auth.Types.{IsLawful, AuthEnv, api_key_collection}
use barq_control_plane.Auth.Types.Laws.{forget_answer_store}
use barq_control_plane.Auth.Keys.Laws.{IsKeyTable, HasRoot}
use barq_control_plane.Auth.KeyChanges.{revoking, revoke_key, update_key}
use barq_control_plane.Auth.KeyChanges.Histories.{
  Change, creating, updating, rotating, after, after-IsKeyTable, after-HasRoot,
}
use barq_control_plane.Auth.Access.{Principal}
use barq_control_plane.Auth.Spared.{
  create_tenant_spares, update_tenant_spares, disable_tenant_spares,
}
use barq_control_plane.SyncRules.Types.{World}
use barq_control_plane.Api.Types.{HttpRequest, ApiEnv}
use barq_control_plane.Api.Routes.{handle}
use barq_control_plane.Api.Served.Managed.{IsManaged, managed-IsServed, no_hooks, no_rules}
use barq_control_plane.Api.Served.Routes.{handle-respects}

module _ {V : Type 0} (env : AuthEnv V) where
  -- Every key stands under its digest, and some stored key is an enabled global admin key.
  pub record IsGoverned (s : Store V) : Type 0 where
    pub keys : IsKeyTable env s
    pub root : HasRoot env s

  Spared-IsGoverned : (s t : Store V) → Spared api_key_collection s t → IsGoverned s → IsGoverned t
  Spared-IsGoverned s t spared governed =
      let (r, key, found, reads, is_root) = governed.root in
      record {
        keys = record {
          table = spared.table governed.keys.table;
          by_digest =
              λ q k found_q. governed.keys.by_digest q k (rw (← spared.untouched q.key) found_q);
        };
        root = (r, key, spared.untouched r.key ∙ found, reads, is_root);
      }

  changed-IsGoverned :
      (law : IsLawful env) (change : Change) (s : Store V)
      → IsGoverned s
      → IsGoverned (after env change s)
  changed-IsGoverned law change s governed = record {
    keys = after-IsKeyTable env change s law governed.keys;
    root = after-HasRoot env change s law governed.keys governed.root;
  }

  revoked-IsGoverned :
      (law : IsLawful env) (now : ℕ) (id : String) (s : Store V)
      → IsGoverned s
      → IsGoverned (revoke_key env now id s).1
  unfolding revoke_key after
  revoked-IsGoverned law now id s governed =
      rw (forget_answer_store (update_key env now id revoking s))
        (changed-IsGoverned law (updating now id revoking) s governed)

module _ {V C : Type 0} (env : ApiEnv V C) where
  abbrev Keeps : Store V → Store V → Type 0
  Keeps s t = IsGoverned env.auth s → IsGoverned env.auth t

  away : (s t : Store V) → Spared api_key_collection s t → Keeps s t
  away s t spared governed = Spared-IsGoverned env.auth s t spared governed

  governed-IsManaged : (law : IsLawful env.auth) (p : Principal) → IsManaged env p Keeps
  unfolding after
  governed-IsManaged law p = record {
    sparing = λ s t others. away s t (others api_key_collection no_hooks no_rules);
    tenant_created = λ now input s u h.
        away s _ (create_tenant_spares env.auth api_key_collection refl s now input);
    tenant_updated = λ now id input s u h.
        away s _ (update_tenant_spares env.auth api_key_collection refl s now id input);
    tenant_disabled =
        λ now id s u h. away s _ (disable_tenant_spares env.auth api_key_collection refl s now id);
    key_created = λ now input s u h. changed-IsGoverned env.auth law (creating now input) s;
    key_rotated = λ now id k s u f h. changed-IsGoverned env.auth law (rotating now id) s;
    key_updated =
        λ now id k input s u f h. changed-IsGoverned env.auth law (updating now id input) s;
    key_revoked = λ now id k s u f h. revoked-IsGoverned env.auth law now id s;
  }

  -- The state after requests, one after the other.
  unfoldable pub handle_all : List HttpRequest → World V C → World V C
  unfolding handle
  handle_all [] w = w
  handle_all (r ∷ rs) w = handle_all rs (handle env r w).1

  -- If the encoding is lawful, every key stands under its digest and some stored key is an enabled
  -- global admin key, then so it is after any sequence of requests, whoever sends them and whatever
  -- Core, the random source and routing do.
  pub handle_all-IsGoverned :
      (rs : List HttpRequest) (w : World V C)
      → IsLawful env.auth
      → IsGoverned env.auth w.store
      → IsGoverned env.auth (handle_all rs w).store
  unfolding handle_all
  handle_all-IsGoverned [] w law governed = governed
  handle_all-IsGoverned (r ∷ rs) w law governed = handle_all-IsGoverned rs (handle env r w).1 law (
      handle-respects env r (λ v x. Keeps v.store x.store) w (λ v before. before)
        (λ key e. managed-IsServed env r (some key) Keeps (governed-IsManaged law (some key)))
        governed)
