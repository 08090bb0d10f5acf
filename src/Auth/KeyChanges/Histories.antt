-- ===== src/Auth/KeyChanges/Histories.antt =====
-- Sequences of changes of the key table.
use barq_control_plane.Base.{String, List, [], ◌∷◌}
use barq_control_plane.Control.Store.{Store}
use barq_control_plane.Auth.Types.{Time, UpdateServiceKeyInput, AuthEnv, IsLawful}
use barq_control_plane.Auth.Keys.Laws.{IsKeyTable, HasRoot}
use barq_control_plane.Auth.KeyChanges.{update_key}
use barq_control_plane.Auth.Types.{CreateServiceKeyInput}
use barq_control_plane.Auth.KeyChanges.{rotate_key}
use barq_control_plane.Auth.KeyChanges.{create_key}
use barq_control_plane.Auth.KeyChanges.Create.{create_key-IsKeyTable, create_key-HasRoot}
use barq_control_plane.Auth.KeyChanges.Root.{update_key-HasRoot}
use barq_control_plane.Auth.KeyChanges.Invariant.{
  update_key-IsKeyTable, rotate_key-IsKeyTable, rotate_key-HasRoot,
}

-- What an administrator may ask for; revoking is an update.
pub data Change : Type 0 where
  creating : Time → CreateServiceKeyInput → Change
  updating : Time → String → UpdateServiceKeyInput → Change
  rotating : Time → String → Change

module _ {V : Type 0} (env : AuthEnv V) where
  unfoldable pub after : Change → Store V → Store V
  after (creating now raw) s = (create_key env now raw s).1
  after (updating now id input) s = (update_key env now id input s).1
  after (rotating now id) s = (rotate_key env now id s).1

  unfoldable pub after_all : List Change → Store V → Store V
  unfolding after
  after_all [] s = s
  after_all (c ∷ cs) s = after_all cs (after c s)

  pub after-IsKeyTable :
      (c : Change) (s : Store V) → IsLawful env → IsKeyTable env s → IsKeyTable env (after c s)
  unfolding after
  after-IsKeyTable (creating now raw) s law tab = create_key-IsKeyTable env law now raw s tab
  after-IsKeyTable (updating now id input) s law tab =
      update_key-IsKeyTable env law now id input s tab
  after-IsKeyTable (rotating now id) s law tab = rotate_key-IsKeyTable env law now id s tab

  pub after-HasRoot :
      (c : Change) (s : Store V)
      → IsLawful env
      → IsKeyTable env s
      → HasRoot env s
      → HasRoot env (after c s)
  unfolding after
  after-HasRoot (creating now raw) s law tab root = create_key-HasRoot env law now raw s root
  after-HasRoot (updating now id input) s law tab root =
      update_key-HasRoot env now id input s law tab root
  after-HasRoot (rotating now id) s law tab root = rotate_key-HasRoot env now id s law tab root

  -- If every key is stored under its digest and some key is an enabled global admin key, then
  -- so it is after any sequence of creations, updates and rotations of keys, whether they
  -- succeed or fail. The encoding is assumed lawful.
  pub after_all-HasRoot :
      (cs : List Change) (s : Store V)
      → IsLawful env
      → IsKeyTable env s
      → HasRoot env s
      → IsKeyTable env (after_all cs s) × HasRoot env (after_all cs s)
  unfolding after_all
  after_all-HasRoot [] s law tab root = (tab, root)
  after_all-HasRoot (c ∷ cs) s law tab root =
      after_all-HasRoot cs (after c s) law (after-IsKeyTable c s law tab)
        (after-HasRoot c s law tab root)
