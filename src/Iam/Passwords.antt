-- ===== src/Iam/Passwords.antt =====
-- common/utils/hash.go: stored password hashes. The salt is drawn from outside; `sscanf` is
-- fmt.Sscanf with the code's one format, which leaves a 0 for what it cannot read.
use my_go_market.Prelude.{
  ◌≤◌, arith, ℕ, suc, ◌*◌, Bool, true, false, List, [], ◌∷◌, ◌++◌, ◌≡◌, ◌≢◌, refl, ◌==◌,
  if◌then◌else◌, length, leb, arith, All, ==_iff, leb,
}
use my_go_market.Prelude.Text.{Text, codes, text_eq, text_eq_refl}

-- What the code calls of argon2, encoding/base64 (raw, standard) and fmt. `decode` returns the bytes
-- that were read before an error, which the code ignores.
pub record HashLib : Type 0 where
  pub id_key : (password salt : Text) → (time memory threads key_len : ℕ) → Text
  pub encode : Text → Text
  pub decode : Text → Text
  pub sscanf : Text → ℕ × ℕ × ℕ

abbrev pub dollar : ℕ
dollar = b'$'

-- `strings.Split(s, "$")`
abbrev pub onto_first : ℕ → List Text → List Text
onto_first c [] = (c ∷ []) ∷ []
onto_first c (part ∷ parts) = (c ∷ part) ∷ parts

unfoldable pub split : Text → List Text
split [] = [] ∷ []
split (c ∷ cs) = let rest = split cs in if c == dollar then [] ∷ rest else onto_first c rest

abbrev pub params : Text
params = codes "m=32768,t=1,p=2"

abbrev pub key_len : ℕ
key_len = 32

-- The part at an index of the six or more parts.
unfoldable pub part : ℕ → List Text → Text
part k [] = []
part ℕ.zero (p ∷ ps) = p
part (suc k) (p ∷ ps) = part k ps

module _ (lib : HashLib) where
  -- `HashPassword`, with the salt
  unfoldable pub hash_password : (salt password : Text) → Text
  hash_password salt password =
      codes "$argon2id$v=19$"
      ++ (params
          ++ (dollar
              ∷ (lib.encode salt
                  ++ (dollar ∷ lib.encode (lib.id_key password salt 1 (32 * 1024) 2 key_len)))))

  unfoldable pub check_password_hash : (password encoded_hash : Text) → Bool
  check_password_hash password encoded_hash =
      let parts = split encoded_hash in
      if leb 6 (length parts)
      then (let (m, t, p) = lib.sscanf (part 3 parts) in
          let salt = lib.decode (part 4 parts) in
          let decoded = lib.decode (part 5 parts) in
          text_eq decoded (lib.id_key password salt t m p (length decoded)))
      else false

-- A text without `$`.
abbrev pub NoDollar : Text → Type 0
NoDollar s = All (λ (c : ℕ). c ≢ dollar) s

split-append : (s rest : Text) → NoDollar s → split (s ++ (dollar ∷ rest)) ≡ s ∷ split rest
unfolding split
split-append [] rest h = refl
split-append (c ∷ cs) rest (n, h) = ground (arith, split-append cs rest h, ==_iff c dollar)

split-plain : (s : Text) → NoDollar s → split s ≡ s ∷ []
unfolding split
split-plain [] h = refl
split-plain (c ∷ cs) (n, h) = ground (arith, split-plain cs h, ==_iff c dollar)

-- What the code relies on of the libraries: encoded text reads back and has no `$`, keys have the
-- asked length where time and threads are at least 1, and the parameters are read.
pub record IsFaithful (lib : HashLib) : Type 0 where
  pub decode_encode : (s : Text) → lib.decode (lib.encode s) ≡ s
  pub plain : (s : Text) → NoDollar (lib.encode s)
  pub key_length :
      (password salt : Text) (t m p n : ℕ)
      → 1 ≤ t
      → 1 ≤ p
      → length (lib.id_key password salt t m p n) ≡ n
  pub reads : lib.sscanf params ≡ (32 * 1024, 1, 2)

split-hash :
    (lib : HashLib) (salt password : Text)
    → IsFaithful lib
    → split (hash_password lib salt password)
      ≡ []
        ∷ codes "argon2id"
        ∷ codes "v=19"
        ∷ params
        ∷ lib.encode salt
        ∷ lib.encode (lib.id_key password salt 1 (32 * 1024) 2 key_len)
        ∷ []
unfolding hash_password split
split-hash lib salt password f =
    let key = lib.encode (lib.id_key password salt 1 (32 * 1024) 2 key_len) in
    rw
      (
        split-append (lib.encode salt) key (f.plain salt),
        split-plain key (f.plain (lib.id_key password salt 1 (32 * 1024) 2 key_len)),
      )
      refl

-- A password is accepted against every hash that was made of it.
pub check-hash_password :
    (lib : HashLib) (salt password : Text)
    → IsFaithful lib
    → check_password_hash lib password (hash_password lib salt password) ≡ true
unfolding check_password_hash part
check-hash_password lib salt password f =
    let key = lib.id_key password salt 1 (32 * 1024) 2 key_len in
    rw
      (
        split-hash lib salt password f,
        f.reads,
        f.decode_encode salt,
        f.decode_encode key,
        f.key_length password salt 1 (32 * 1024) 2 key_len (omega arith) (omega arith),
      )
      (text_eq_refl key)
