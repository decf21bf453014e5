-- ===== src/Cluster/Keys.antt =====
-- The keys, the random identifiers and the password hashes of
-- core/distributed_auth_manager.cpp. SHA-256, which OpenSSL computes, is a parameter.
use email_server_backend.Base.{
  ℕ, zero, suc, ◌+◌, ◌-◌, ◌/◌, ◌%◌, Bool, [], ◌∷◌, ◌++◌, Bytes, text, bytes_eq, ltb, if◌then◌else◌,
}

unfoldable pub cluster_key : Bytes → Bytes → Bytes
unfolding text
cluster_key id suffix = text "emailserver:" ++ (id ++ (text ":" ++ suffix))

unfoldable pub user_key : Bytes → Bytes → Bytes
unfolding cluster_key text
user_key id name = cluster_key id (text "user:" ++ name)

unfoldable pub session_key : Bytes → Bytes → Bytes
unfolding cluster_key text
session_key id session = cluster_key id (text "session:" ++ session)

-- A digit as the stream writes it under `std::hex`.
unfoldable pub digit_char : ℕ → ℕ
digit_char d = if ltb d 10 then b'0' + d else b'a' + (d - 10)

-- `draw` gives the numbers from 0 to 15 that the generator draws.
unfoldable pub random_digits : (ℕ → ℕ) → ℕ → ℕ → Bytes
random_digits draw i zero = []
random_digits draw i (suc n) = digit_char (draw i) ∷ random_digits draw (suc i) n

unfoldable pub generate_session_id : (ℕ → ℕ) → Bytes
unfolding random_digits digit_char
generate_session_id draw = random_digits draw 0 32

unfoldable pub generate_node_id : (ℕ → ℕ) → Bytes
unfolding random_digits digit_char text
generate_node_id draw = text "node-" ++ random_digits draw 0 8

unfoldable pub hex_bytes : Bytes → Bytes
unfolding digit_char
hex_bytes [] = []
hex_bytes (b ∷ bs) = digit_char (b / 16) ∷ digit_char (b % 16) ∷ hex_bytes bs

unfoldable pub hash_password : (Bytes → Bytes) → Bytes → Bytes
unfolding hex_bytes
hash_password sha256 password = hex_bytes (sha256 password)

unfoldable pub verify_password : (Bytes → Bytes) → Bytes → Bytes → Bool
unfolding bytes_eq hash_password
verify_password sha256 password hash = bytes_eq (hash_password sha256 password) hash
