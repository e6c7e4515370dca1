-- ===== src/Tests/Auth.antt =====
-- The theorem about tokens, with ids of one byte and a MAC that shows what it is given.
use blockyard.Common.{ℕ, ◌≡◌, ◌<◌, ◌↔◌, refl, Option, none, some, [], ◌∷◌, ◌++◌, arith}
use blockyard.Storage.Acl.{client, node}
use blockyard.Auth.Tokens.{
  Bytes, AuthToken, accepted, refused, expired, invalid_signature, IdText, identity_text,
  create_token, validate_token,
}
use blockyard.Auth.TokenLaws.{validate_token-created}

abbrev byte_of : Bytes → Option ℕ
byte_of [] = none
byte_of (b ∷ []) = some b
byte_of (b ∷ c ∷ bs) = none

abbrev short_ids : IdText
short_ids = record { to_string = λ id. id ∷ []; parse = byte_of }

abbrev open_mac : Bytes → Bytes → Bytes
open_mac secret text = secret ++ text

abbrev secret_bytes : Bytes
secret_bytes = 1 ∷ 2 ∷ 3 ∷ 4 ∷ 5 ∷ 6 ∷ 7 ∷ 8 ∷ []

abbrev token_of_nine : AuthToken
token_of_nine = create_token short_ids open_mac secret_bytes (client 9) 300 1000

accepted_in_time :
    validate_token short_ids open_mac secret_bytes token_of_nine 1299 ≡ accepted (client 9)
unfolding validate_token create_token
accepted_in_time = refl

refused_after : validate_token short_ids open_mac secret_bytes token_of_nine 1300 ≡ refused expired
unfolding validate_token create_token
refused_after = refl

refused_as_node :
    validate_token short_ids open_mac secret_bytes
      (record token_of_nine { identity = identity_text short_ids (node 9) })
      1200
    ≡ refused invalid_signature
unfolding validate_token create_token
refused_as_node = refl

times : (1000 < 18446744073709551616) × (token_of_nine.expires_at_ms < 18446744073709551616)
unfolding create_token
times = (omega arith, omega arith)

validate_token-created_example :
    (validate_token short_ids open_mac secret_bytes token_of_nine 1299 ≡ accepted (client 9)) ↔ (
      (token_of_nine ≡ token_of_nine)
      × (1299 < token_of_nine.expires_at_ms)
      × (client 9 ≡ client 9))
unfolding create_token
validate_token-created_example =
    validate_token-created short_ids open_mac secret_bytes (client 9) (client 9) 300 1000 1299
      token_of_nine (λ id. refl) times (omega arith) refl (λ h. refl)
