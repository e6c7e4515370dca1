-- ===== src/Storage/Acl.antt =====
-- crates/blockyard-common/src/auth.rs: who may read and write a volume. The text of an identity is
-- built by the argument `to_string`.
use blockyard.Common.{ℕ-eq, String-eq, ℕ, String, Bool, true, false, Option, none, some, [], ◌∷◌}
use blockyard.Common.Maps.{Map, get, insert, remove}

pub data PeerIdentity : Type 0 where
  client : ℕ → PeerIdentity
  node : ℕ → PeerIdentity

pub record VolumePermission : Type 0 where
  pub read : Bool
  pub write : Bool

abbrev pub VolumeAcl : Type 0
VolumeAcl = Map ℕ (Map String VolumePermission)

abbrev pub or_default : Option (Map String VolumePermission) → Map String VolumePermission
or_default none = []
or_default (some m) = m

unfoldable pub grant : ℕ → String → VolumePermission → VolumeAcl → VolumeAcl
grant volume_id identity permission acls =
    insert volume_id (insert identity permission (or_default (get volume_id acls))) acls

-- A volume with no permission left is dropped.
unfoldable pub put_back : ℕ → Map String VolumePermission → VolumeAcl → VolumeAcl
put_back volume_id [] acls = remove volume_id acls
put_back volume_id (e ∷ es) acls = insert volume_id (e ∷ es) acls

unfoldable pub revoke_in : Option (Map String VolumePermission) → ℕ → String → VolumeAcl → VolumeAcl
unfolding put_back
revoke_in none volume_id identity acls = acls
revoke_in (some vol_acl) volume_id identity acls = put_back volume_id (remove identity vol_acl) acls

unfoldable pub revoke : ℕ → String → VolumeAcl → VolumeAcl
unfolding revoke_in
revoke volume_id identity acls = revoke_in (get volume_id acls) volume_id identity acls

unfoldable pub list_permissions : ℕ → VolumeAcl → Map String VolumePermission
list_permissions volume_id acls = or_default (get volume_id acls)

unfoldable pub remove_volume : ℕ → VolumeAcl → VolumeAcl
remove_volume volume_id acls = remove volume_id acls

abbrev pub may_read : Option VolumePermission → Bool
may_read none = false
may_read (some perm) = perm.read

abbrev pub may_write : Option VolumePermission → Bool
may_write none = false
may_write (some perm) = perm.write

unfoldable pub permission_of : ℕ → String → VolumeAcl → Option VolumePermission
permission_of volume_id identity acls = get identity (or_default (get volume_id acls))

module _ (to_string : PeerIdentity → String) where
  unfoldable pub check_read : ℕ → PeerIdentity → VolumeAcl → Bool
  unfolding permission_of
  check_read volume_id (node n) acls = true
  check_read volume_id (client s) acls =
      may_read (permission_of volume_id (to_string (client s)) acls)

  unfoldable pub check_write : ℕ → PeerIdentity → VolumeAcl → Bool
  unfolding permission_of
  check_write volume_id (node n) acls = true
  check_write volume_id (client s) acls =
      may_write (permission_of volume_id (to_string (client s)) acls)
