-- ===== src/Auth/TokenLaws.antt =====
-- Which tokens are accepted (crates/blockyard-common/src/auth.rs).
use blockyard.Common.{
  ℕ, zero, suc, ◌≡◌, ◌<◌, ◌*◌, ◌/◌, ◌%◌, ◌^◌, ◌↔◌, refl, sym, ap, ◌∙◌, Bool, true, false,
  Bool-cases, some, inl, inr, [], ◌∷◌, ◌++◌, if◌then◌else◌, ltb, nat_eq, bytes_eq, ◌&&◌, length,
  length-append, saturating_add, u64_mod, arith,
}
use mathlib.Core.Path.{subst}
use native.Mathlib.Numerals.{unary_clauses}
use blockyard.Storage.Acl.{PeerIdentity, client, node}
use blockyard.Auth.Tokens.{
  Bytes, AuthToken, AuthError, Checked, accepted, refused, expired, IdText, is_expired, hex_encode,
  low_bytes, to_le_bytes, message, identity_text, parse_identity, compute_signature, create_token,
  validate_token, invalid_signature,
}

abbrev head_of : Bytes → ℕ
head_of [] = 0
head_of (x ∷ xs) = x

abbrev tail_of : Bytes → Bytes
tail_of [] = []
tail_of (x ∷ xs) = xs

bytes_eq-same : (xs ys : Bytes) → bytes_eq xs ys ≡ true → xs ≡ ys
unfolding bytes_eq
bytes_eq-same [] [] h = refl
bytes_eq-same [] (y ∷ ys) h = ground arith
bytes_eq-same (x ∷ xs) [] h = ground arith
bytes_eq-same (x ∷ xs) (y ∷ ys) h = elim (Bool-cases (nat_eq x y)) [
  | inl e ↦
      let same : x ≡ y = ground arith in
      let rest : bytes_eq xs ys ≡ true = subst (λ (b : Bool). b && bytes_eq xs ys ≡ true) e h in
      cc (same, bytes_eq-same xs ys rest)
  | inr e ↦ cc (subst (λ (b : Bool). b && bytes_eq xs ys ≡ true) e h)
]

bytes_eq_refl : (xs : Bytes) → bytes_eq xs xs ≡ true
unfolding bytes_eq
bytes_eq_refl [] = refl
bytes_eq_refl (x ∷ xs) = ground (arith, bytes_eq_refl xs)

hex_encode-same : (xs ys : Bytes) → hex_encode xs ≡ hex_encode ys → xs ≡ ys
unfolding hex_encode
hex_encode-same [] [] h = refl
hex_encode-same [] (y ∷ ys) h = ground arith
hex_encode-same (x ∷ xs) [] h = ground arith
hex_encode-same (x ∷ xs) (y ∷ ys) h =
    let high : x / 16 ≡ y / 16 = ap head_of h in
    let low : x % 16 ≡ y % 16 = ap head_of (ap tail_of h) in
    let same : x ≡ y = omega arith in cc (same, hex_encode-same xs ys (ap tail_of (ap tail_of h)))

low_bytes-same : (k m n : ℕ) → m < 256 ^ k → n < 256 ^ k → low_bytes k m ≡ low_bytes k n → m ≡ n
unfolding low_bytes
low_bytes-same zero m n lt lt' h = omega arith
low_bytes-same (suc k) m n lt lt' h =
    let power : 256 ^ suc k ≡ 256 ^ k * 256 = simp unary_clauses refl in
    let low : m % 256 ≡ n % 256 = ap head_of h in
    let high : m / 256 ≡ n / 256 =
      low_bytes-same k (m / 256) (n / 256) (omega arith) (omega arith) (ap tail_of h) in
    omega arith

length-low_bytes : (k n : ℕ) → length (low_bytes k n) ≡ k
unfolding low_bytes
length-low_bytes zero n = refl
length-low_bytes (suc k) n = ap suc (length-low_bytes k (n / 256))

-- Two texts of which as much follows.
append-same :
    (xs ys us vs : Bytes) → length us ≡ length vs → xs ++ us ≡ ys ++ vs → (xs ≡ ys) × (us ≡ vs)
append-same [] [] us vs as_long h = (refl, h)
append-same [] (y ∷ ys) us vs as_long h =
    absurd (omega (arith, length-append ys vs, ap (λ (zs : Bytes). length zs) h))
append-same (x ∷ xs) [] us vs as_long h =
    absurd (omega (arith, length-append xs us, ap (λ (zs : Bytes). length zs) h))
append-same (x ∷ xs) (y ∷ ys) us vs as_long h =
    let (front, back) = append-same xs ys us vs as_long (ap tail_of h) in
    let first : x ≡ y = ap head_of h in (cc (first, front), back)

message-same :
    (i j : Bytes) (m n a b : ℕ)
    → m < u64_mod
    → n < u64_mod
    → a < u64_mod
    → b < u64_mod
    → message i m a ≡ message j n b
    → (i ≡ j) × (m ≡ n) × (a ≡ b)
unfolding message
message-same i j m n a b mf nf af bf h =
    let as_long : length (to_le_bytes m ++ to_le_bytes a)
        ≡ length (to_le_bytes n ++ to_le_bytes b) =
      omega (
        arith,
        length-append (to_le_bytes m) (to_le_bytes a),
        length-append (to_le_bytes n) (to_le_bytes b),
        length-low_bytes 8 m,
        length-low_bytes 8 n,
        length-low_bytes 8 a,
        length-low_bytes 8 b,
      ) in
    let (same, times) =
      append-same i j (to_le_bytes m ++ to_le_bytes a) (to_le_bytes n ++ to_le_bytes b) as_long h in
    let (issued, ends) =
      append-same (to_le_bytes m) (to_le_bytes n) (to_le_bytes a) (to_le_bytes b)
        (length-low_bytes 8 a ∙ sym (length-low_bytes 8 b)) times in
    (same, low_bytes-same 8 m n mf nf issued, low_bytes-same 8 a b af bf ends)

if-refused :
    (b : Bool) (e : AuthError) (c : Checked) (who : PeerIdentity)
    → (if b then refused e else c) ≡ accepted who
    → (b ≡ false) × (c ≡ accepted who)
if-refused true e c who h = ground arith
if-refused false e c who h = (refl, h)

if-accepted :
    (b : Bool) (e : AuthError) (c : Checked) (who : PeerIdentity)
    → (if b then c else refused e) ≡ accepted who
    → (b ≡ true) × (c ≡ accepted who)
if-accepted true e c who h = (refl, h)
if-accepted false e c who h = ground arith

abbrev peer_of : PeerIdentity → Checked → PeerIdentity
peer_of who (accepted peer) = peer
peer_of who (refused e) = who

-- An id is read back from its text.
abbrev pub ReadsIds : IdText → Type 0
ReadsIds ids = (id : ℕ) → ids.parse (ids.to_string id) ≡ some id

identity_text-parse :
    (ids : IdText) (who : PeerIdentity)
    → ReadsIds ids
    → parse_identity ids (identity_text ids who) ≡ accepted who
unfolding parse_identity identity_text
identity_text-parse ids (client sid) reads = rw (reads sid) refl
identity_text-parse ids (node nid) reads = rw (reads nid) refl

-- The bytes that the signature of a token is computed from.
abbrev pub signed : AuthToken → Bytes
signed t = message t.identity t.issued_at_ms t.expires_at_ms

-- The times of a token are of 64 bits.
abbrev pub Timed : AuthToken → Type 0
Timed t = (t.issued_at_ms < u64_mod) × (t.expires_at_ms < u64_mod)

module _ (ids : IdText) (mac : Bytes → Bytes → Bytes) (secret : Bytes) where
  validated :
      (t : AuthToken) (now : ℕ) (who : PeerIdentity)
      → validate_token ids mac secret t now ≡ accepted who
      → (now < t.expires_at_ms)
        × (t.signature ≡ hex_encode (mac secret (signed t)))
        × (parse_identity ids t.identity ≡ accepted who)
  unfolding validate_token is_expired
  validated t now who h =
      let signature : Bytes = hex_encode (mac secret (signed t)) in
      let checked : Checked =
        if bytes_eq t.signature signature
        then parse_identity ids t.identity
        else refused invalid_signature in
      let (in_time, rest) = if-refused (is_expired t now) expired checked who h in
      let (same, parsed) =
        if-accepted (bytes_eq t.signature signature) invalid_signature
          (parse_identity ids t.identity) who rest in
      (ground arith, bytes_eq-same t.signature signature same, parsed)

  accepts :
      (t : AuthToken) (now : ℕ) (who : PeerIdentity)
      → now < t.expires_at_ms
      → t.signature ≡ hex_encode (mac secret (signed t))
      → parse_identity ids t.identity ≡ accepted who
      → validate_token ids mac secret t now ≡ accepted who
  unfolding validate_token is_expired
  accepts t now who in_time same parsed =
      let early : ltb now t.expires_at_ms ≡ true = ground arith in
      let equal : bytes_eq t.signature (hex_encode (mac secret (signed t))) ≡ true =
        subst (λ (s : Bytes). bytes_eq t.signature s ≡ true) same (bytes_eq_refl t.signature) in
      rw (early, equal) parsed

  -- When ids read back from their text, then a token with 64-bit times that carries the signature of a
  -- created one, where the MAC does not collide on the bytes that the two sign, is accepted for a peer
  -- just when it is the created token, has not expired, and the peer is the one that it was created for.
  pub validate_token-created :
      (who who' : PeerIdentity) (ttl_ms issued now : ℕ) (t : AuthToken)
      → ReadsIds ids
      → Timed t
      → issued < u64_mod
      → t.signature ≡ (create_token ids mac secret who ttl_ms issued).signature
      → (mac secret (signed t) ≡ mac secret (signed (create_token ids mac secret who ttl_ms issued))
          → signed t ≡ signed (create_token ids mac secret who ttl_ms issued))
      → (validate_token ids mac secret t now ≡ accepted who') ↔ (
          (t ≡ create_token ids mac secret who ttl_ms issued)
          × (now < t.expires_at_ms)
          × (who' ≡ who))
  unfolding create_token compute_signature
  validate_token-created who who' ttl_ms issued now t reads timed fits same apart =
      let made : AuthToken = create_token ids mac secret who ttl_ms issued in
      let ends : saturating_add issued ttl_ms < u64_mod = ground arith in
      (
        λ h.
            let (in_time, sign, parsed) = validated t now who' h in
            let (i, m, a) =
              message-same t.identity made.identity t.issued_at_ms issued t.expires_at_ms
                made.expires_at_ms timed.0 fits timed.1 ends
                (apart (
                  hex_encode-same (mac secret (signed t)) (mac secret (signed made))
                    (sym sign ∙ same))) in
            let parsed' : parse_identity ids made.identity ≡ accepted who' =
              subst (λ (text : Bytes). parse_identity ids text ≡ accepted who') i parsed in
            (
              cc (i, m, a, same),
              in_time,
              ap (peer_of who) (sym parsed' ∙ identity_text-parse ids who reads),
            ),
        λ (is, in_time, peer).
            accepts t now who' in_time
              (same ∙ ap (λ (u : AuthToken). hex_encode (mac secret (signed u))) (sym is))
              (ap (λ (u : AuthToken). parse_identity ids u.identity) is
                ∙ identity_text-parse ids who reads
                ∙ ap accepted (sym peer)),
      )
