-- ===== src/Wallet/Queries.antt =====
-- The requests that read wallets: GetMyWallet and ListTransactions of
-- services/wallet/app/http_service.go, and services/wallet/app/grpc_service.go. A gRPC status is
-- given by the number of its code: 3 for InvalidArgument, 5 for NotFound, 13 for Internal.
use my_go_market.Prelude.{ℕ, Option, none, some, List, if◌then◌else◌}
use my_go_market.Prelude.Int.{ℤ}
use my_go_market.Prelude.Text.{Text, codes, trim_space, to_lower, text_eq}
use my_go_market.Errors.{Error, record_not_found}
use my_go_market.Web.{
  Reply, refused, answered, ◌>>=◌, ◌>>◌, or_refuse, reply_with, Parsers, current_user_id, parse_id,
  pagination, page_offset, page_limit,
}
use my_go_market.Wallet.Domain.{Wallet, OwnerType, user, group, Transaction}
use my_go_market.Wallet.Store.{Ledger, Env, find_by_owner, get_or_create_by_owner}
use my_go_market.Wallet.Transfer.{list_transactions}
use my_go_market.Wallet.Handlers.{ensure_owned_wallet}

-- Any error of the repository is reported alike.
abbrev fails_with : (status : ℕ) → (code : Text) → Error → ℕ × Text
fails_with status code e = (status, code)

-- `c.DefaultQuery`
abbrev default_query : (given : Option Text) → (default : Text) → Text
default_query none default = default
default_query (some value) default = value

-- The page of transactions, with the page and its size.
pub record TransactionPage : Type 0 where
  pub items : List Transaction
  pub page : ℤ
  pub page_size : ℤ

abbrev get_failed : Error → ℕ × Text
get_failed record_not_found = (5, codes "wallet not found")
get_failed _ = (13, codes "failed to get wallet")

-- The owner's type: the lower-case text without the space around it.
abbrev owner_type_of : Text → Option OwnerType
owner_type_of value =
    if text_eq value (codes "user")
    then some user
    else if text_eq value (codes "group")
    then some group
    else none

module _ (lib : Parsers) where
  unfoldable pub get_my_wallet :
      Env → (user_id : Text) → (currency_code : Option Text) → Ledger → Reply Wallet × Ledger
  get_my_wallet env user_id currency_code l = elim (current_user_id lib user_id) [
    | refused status code ↦ (refused status code, l)
    | answered u ↦
        let (r, l') =
          get_or_create_by_owner env u user (default_query currency_code (codes "COIN")) l in
        (reply_with (fails_with 500 (codes "WALLET_GET_FAILED")) r, l')
  ]

  -- `page` and `page_size` are the numbers that strconv.Atoi returns.
  unfoldable pub list_transactions_handler :
      (user_id wallet_id : Text) → (page page_size : ℤ) → Ledger → Reply TransactionPage
  list_transactions_handler user_id wallet_id page page_size l = do
    u ← current_user_id lib user_id
    k ← parse_id lib wallet_id (codes "INVALID_WALLET_ID")
    ensure_owned_wallet k u l
    let p = pagination page page_size
    answered (record {
      items = list_transactions k (page_limit p.1) (page_offset p.0 p.1) l;
      page = p.0;
      page_size = p.1;
    })

  unfoldable pub parse_owner_wallet_request : (owner_id owner_type : Text) → Reply (ℕ × OwnerType)
  parse_owner_wallet_request owner_id owner_type = do
    id ← or_refuse (lib.parse_uuid (trim_space owner_id)) 3 (codes "invalid owner_id")
    ty ←
        or_refuse (owner_type_of (trim_space (to_lower owner_type))) 3
          (codes "owner_type must be user or group")
    answered (id, ty)

  unfoldable pub get_wallet : (owner_id owner_type currency_code : Text) → Ledger → Reply Wallet
  get_wallet owner_id owner_type currency_code l = do
    owner ← parse_owner_wallet_request owner_id owner_type
    reply_with get_failed (find_by_owner owner.0 owner.1 currency_code l)

  unfoldable pub get_or_create_wallet :
      Env → (owner_id owner_type currency_code : Text) → Ledger → Reply Wallet × Ledger
  get_or_create_wallet env owner_id owner_type currency_code l =
      elim (parse_owner_wallet_request owner_id owner_type) [
        | refused status code ↦ (refused status code, l)
        | answered owner ↦
            let (r, l') = get_or_create_by_owner env owner.0 owner.1 currency_code l in
            (reply_with (fails_with 13 (codes "failed to get or create wallet")) r, l')
      ]
