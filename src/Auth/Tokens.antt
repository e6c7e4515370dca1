-- ===== src/Auth/Tokens.antt =====
-- crates/blockyard-common/src/auth.rs, `SharedSecretAuth` and `parse_identity`. A string is the list
-- of its bytes. HMAC-SHA256 is the argument `mac`, and the text of an id the argument `ids`; an error
-- keeps its kind in place of its text.
use blockyard.Common.{
  ℕ, zero, suc, Bool, true, false, Option, none, some, List, [], ◌∷◌, ◌++◌, if◌then◌else◌, ltb,
  nat_eq, bytes_eq, length, saturating_add, ◌/◌, ◌%◌,
}
use blockyard.Storage.Acl.{PeerIdentity, client, node}

abbrev pub Bytes : Type 0
Bytes = List ℕ

pub record AuthToken : Type 0 where
  pub identity : Bytes
  pub issued_at_ms : ℕ
  pub expires_at_ms : ℕ
  pub signature : Bytes

pub data AuthError : Type 0 where
  short_secret expired invalid_signature : AuthError
  invalid_session invalid_node unrecognized : AuthError

pub data Checked : Type 0 where
  accepted : PeerIdentity → Checked
  refused : AuthError → Checked

-- How an id is written, and read back if it can be.
pub record IdText : Type 0 where
  pub to_string : ℕ → Bytes
  pub parse : Bytes → Option ℕ

unfoldable pub is_expired : AuthToken → ℕ → Bool
is_expired token now_ms = if ltb now_ms token.expires_at_ms then false else true

-- `new`, or none where it fails.
unfoldable pub new : Bytes → Option Bytes
new secret = if ltb (length secret) 8 then none else some secret

-- The bytes of `client:` and of `node:`.
abbrev pub client_prefix : Bytes
client_prefix = 99 ∷ 108 ∷ 105 ∷ 101 ∷ 110 ∷ 116 ∷ 58 ∷ []

abbrev pub node_prefix : Bytes
node_prefix = 110 ∷ 111 ∷ 100 ∷ 101 ∷ 58 ∷ []

unfoldable pub strip_prefix : Bytes → Bytes → Option Bytes
strip_prefix [] s = some s
strip_prefix (b ∷ bs) [] = none
strip_prefix (b ∷ bs) (c ∷ cs) = let rest = strip_prefix bs cs in if nat_eq b c then rest else none

-- Both halves of a byte, as digits.
unfoldable pub hex_encode : Bytes → Bytes
hex_encode [] = []
hex_encode (b ∷ bs) = b / 16 ∷ b % 16 ∷ hex_encode bs

-- The lowest bytes of a number, the lowest first.
unfoldable pub low_bytes : ℕ → ℕ → Bytes
low_bytes zero n = []
low_bytes (suc k) n = n % 256 ∷ low_bytes k (n / 256)

abbrev pub to_le_bytes : ℕ → Bytes
to_le_bytes n = low_bytes 8 n

-- What is signed.
unfoldable pub message : Bytes → ℕ → ℕ → Bytes
unfolding low_bytes
message identity issued_at_ms expires_at_ms =
    identity ++ (to_le_bytes issued_at_ms ++ to_le_bytes expires_at_ms)

module _ (mac : Bytes → Bytes → Bytes) (secret : Bytes) where
  unfoldable pub compute_signature : Bytes → ℕ → ℕ → Bytes
  unfolding message hex_encode
  compute_signature identity issued_at_ms expires_at_ms =
      hex_encode (mac secret (message identity issued_at_ms expires_at_ms))

module _ (ids : IdText) where
  -- `fmt` of `PeerIdentity`.
  unfoldable pub identity_text : PeerIdentity → Bytes
  identity_text (client sid) = client_prefix ++ ids.to_string sid
  identity_text (node nid) = node_prefix ++ ids.to_string nid

  abbrev pub on_session : Option ℕ → Checked
  on_session none = refused invalid_session
  on_session (some sid) = accepted (client sid)

  abbrev pub on_node : Option ℕ → Checked
  on_node none = refused invalid_node
  on_node (some nid) = accepted (node nid)

  abbrev pub or_node : Option Bytes → Checked
  or_node none = refused unrecognized
  or_node (some rest) = on_node (ids.parse rest)

  abbrev pub or_else_node : Option Bytes → Option Bytes → Checked
  or_else_node (some rest) as_node = on_session (ids.parse rest)
  or_else_node none as_node = or_node as_node

  unfoldable pub parse_identity : Bytes → Checked
  unfolding strip_prefix
  parse_identity s = or_else_node (strip_prefix client_prefix s) (strip_prefix node_prefix s)

  module _ (mac : Bytes → Bytes → Bytes) (secret : Bytes) where
    unfoldable pub create_token : PeerIdentity → ℕ → ℕ → AuthToken
    unfolding identity_text compute_signature
    create_token identity ttl_ms now =
        let expires = saturating_add now ttl_ms in
        record {
          identity = identity_text identity;
          issued_at_ms = now;
          expires_at_ms = expires;
          signature = compute_signature mac secret (identity_text identity) now expires;
        }

    unfoldable pub validate_token : AuthToken → ℕ → Checked
    unfolding is_expired compute_signature bytes_eq parse_identity
    validate_token token now =
        if is_expired token now
        then refused expired
        else (if bytes_eq token.signature
              (compute_signature mac secret token.identity token.issued_at_ms token.expires_at_ms)
            then parse_identity token.identity
            else refused invalid_signature)
