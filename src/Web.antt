-- ===== src/Web.antt =====
-- What the HTTP handlers share: an answer, or a refusal with its status and code as common/response
-- writes them, and the parts of a request that they read alike.
use my_go_market.Prelude.{
  ap, ltb, ◌-◌, ◌*◌, ◌%◌, arith, ◌≡◌, refl, ◌⊎◌, inl, inr, Bool, true, false, Option, none, some, ℕ,
}
use Prim.Native.Nat.{◌^◌}
use my_go_market.Prelude.Int.{ℤ, pos, negsuc, ltb_ℤ, leb_ℤ, ◌≤ℤ◌}
use my_go_market.Prelude.{if◌then◌else◌}
use my_go_market.Prelude.Text.{Text, codes, trim_space, is_empty}
use my_go_market.Errors.{Error, Result, ok, err}

-- The messages and the rendering of an answer as JSON are left out.
pub data Reply {ℓ} (A : Type ℓ) : Type ℓ where
  refused : (status : ℕ) → (code : Text) → Reply A
  answered : A → Reply A

infixl 5 ◌>>=◌
abbrev pub ◌>>=◌ {ℓ κ} : {A : Type ℓ} {B : Type κ} → Reply A → (A → Reply B) → Reply B
answered a >>= f = f a
refused status code >>= f = refused status code

infixl 5 ◌>>◌
abbrev pub ◌>>◌ {κ} : {B : Type κ} → Reply (Unit {0}) → Reply B → Reply B
r >> s = r >>= (λ _. s)

pub Reply-cases {ℓ} :
    {A : Type ℓ} (r : Reply A)
    → ((a : A) × (r ≡ answered a)) ⊎ ((status : ℕ) × (code : Text) × (r ≡ refused status code))
Reply-cases (answered a) = inl (a, refl)
Reply-cases (refused status code) = inr (status, code, refl)

pub answered-bind {ℓ κ} :
    {A : Type ℓ} {B : Type κ} (r : Reply A) (f : A → Reply B) {b : B}
    → (r >>= f) ≡ answered b
    → (a : A) × (r ≡ answered a) × (f a ≡ answered b)
answered-bind (answered a) f h = (a, refl, h)
answered-bind (refused status code) f h = cc

pub answered-injective {ℓ} : {A : Type ℓ} {a b : A} → answered a ≡ answered b → a ≡ b
answered-injective h = cc

abbrev pub or_refuse {ℓ} : {A : Type ℓ} → Option A → (status : ℕ) → (code : Text) → Reply A
or_refuse none status code = refused status code
or_refuse (some a) status code = answered a

pub or_refuse-answered :
    {A : Type 0} (o : Option A) (status : ℕ) (code : Text) {a : A}
    → or_refuse o status code ≡ answered a
    → o ≡ some a
or_refuse-answered none status code h = cc
or_refuse-answered (some b) status code h = ap some (answered-injective h)

abbrev pub refuse_if : Bool → (status : ℕ) → (code : Text) → Reply (Unit {0})
refuse_if true status code = refused status code
refuse_if false status code = answered tt

-- The answer to a call of a repository, its errors as `write` reports them.
abbrev pub reply_with {ℓ} : {A : Type ℓ} → (write : Error → ℕ × Text) → Result A → Reply A
reply_with write (ok a) = answered a
reply_with write (err e) = refused (write e).0 (write e).1

-- `pagination`, from the numbers that strconv.Atoi returns for the two query values.
unfoldable pub pagination : (page page_size : ℤ) → ℤ × ℤ
pagination page page_size = (
  (if ltb_ℤ page (pos 1) then pos 1 else page),
  (if ltb_ℤ page_size (pos 1)
      then pos 20
      else if ltb_ℤ (pos 100) page_size
      then pos 100
      else page_size),
)

abbrev to_nat : ℤ → ℕ
to_nat (pos n) = n
to_nat (negsuc n) = 0

-- The offset of a page: `(page-1)*pageSize` in an int of 64 bits. One that has wrapped to a negative
-- number is as none to gorm, which writes an OFFSET only where it is above 0.
unfoldable pub page_offset : (page page_size : ℤ) → ℕ
page_offset page page_size =
    let n = ((to_nat page - 1) * to_nat page_size) % 2 ^ 64 in if ltb n (2 ^ 63) then n else 0

-- The limit of a page, which is from 1 to 100.
abbrev pub page_limit : (page_size : ℤ) → ℕ
page_limit page_size = to_nat page_size

-- What the handlers call of google/uuid and shopspring/decimal: Parse and NewFromString, where none
-- is an error.
pub record Parsers : Type 0 where
  pub parse_uuid : Text → Option ℕ
  pub new_from_string : Text → Option ℤ

module _ (lib : Parsers) where
  unfoldable pub current_user_id : (user_id : Text) → Reply ℕ
  current_user_id user_id =
      or_refuse (lib.parse_uuid (trim_space user_id)) 401 (codes "UNAUTHORIZED")

  unfoldable pub parse_id : (value code : Text) → Reply ℕ
  parse_id value code = or_refuse (lib.parse_uuid (trim_space value)) 400 code

  unfoldable pub parse_positive_amount : (value : Text) → Reply ℤ
  parse_positive_amount value = elim (lib.new_from_string (trim_space value)) [
    | none ↦ refused 400 (codes "INVALID_AMOUNT")
    | some amount ↦
        if leb_ℤ amount (pos 0) then refused 400 (codes "INVALID_AMOUNT") else answered amount
  ]

  unfoldable pub parse_optional_uuid : (value code : Text) → Reply (Option ℕ)
  parse_optional_uuid value code =
      let trimmed = trim_space value in
      if is_empty trimmed
      then answered none
      else elim (lib.parse_uuid trimmed) [ none ↦ refused 400 code | some id ↦ answered (some id) ]

-- The user whom a request is made by.
abbrev pub IsUser : Parsers → (user_id : Text) → ℕ → Type 0
IsUser lib user_id u = current_user_id lib user_id ≡ answered u

-- Whatever page and size are asked for, the page is at least 1 and the size from 1 to 100.
pub pagination_bounds :
    (page page_size : ℤ)
    → let (p, size) = pagination page page_size in
      (pos 1 ≤ℤ p) × (pos 1 ≤ℤ size) × (size ≤ℤ pos 100)
unfolding pagination
pagination_bounds page page_size = ground arith
