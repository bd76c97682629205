-- ===== src/Tx.antt =====
-- peer/account/transaction.go: the signed transaction with its NFT and AMM payloads, and the tests
-- on its kind. A pointer that may be nil is an `Option`; `json` tags play no part here.
use pokoinpos.Prelude.{ℕ, Bool, true, false, ◌||◌, Option, none, some}
use pokoinpos.Prelude.Int.{ℤ}
use pokoinpos.Text.{Text, txt, text_eq, has_prefix}

pub record NftPayload : Type 0 where
  pub collection_id : Text
  pub token_id : Text
  pub owner : Text
  pub metadata_uri : Text
  pub metadata_hash : Text
  pub image_uri : Text
  pub burned : Bool

pub record NftToken : Type 0 where
  pub collection_id : Text
  pub token_id : Text
  pub owner : Text
  pub minter : Text
  pub metadata_uri : Text
  pub metadata_hash : Text
  pub image_uri : Text
  pub mint_tx : Text
  pub last_tx : Text
  pub burned : Bool

pub record AmmPayload : Type 0 where
  pub action : Text
  pub pool_id : Text
  pub asset : Text
  pub asset_a : Text
  pub asset_b : Text
  pub asset_in : Text
  pub asset_out : Text
  pub amount : ℤ
  pub amount_a : ℤ
  pub amount_b : ℤ
  pub amount_in : ℤ
  pub min_amount_out : ℤ
  pub amount_out : ℤ
  pub fee_bps : ℤ

pub record AmmPool : Type 0 where
  pub id : Text
  pub asset_a : Text
  pub asset_b : Text
  pub reserve_a : ℤ
  pub reserve_b : ℤ
  pub fee_bps : ℤ
  pub created_tx : Text
  pub last_tx : Text

pub record SignedTransaction : Type 0 where
  pub id : Text
  pub from : Text
  pub to : Text
  pub amount : ℤ
  pub signature : Text
  pub kind : Text
  pub nonce : ℕ
  pub raw : Text
  pub chain_id : ℤ
  pub nft : Option NftPayload
  pub amm : Option AmmPayload

abbrev pub is_some {ℓ} : {A : Type ℓ} → Option A → Bool
is_some none = false
is_some (some a) = true

unfoldable pub is_evm : SignedTransaction → Bool
is_evm s = text_eq s.kind (txt "evm") || has_prefix s.signature (txt "evm:")

unfoldable pub is_mint : SignedTransaction → Bool
is_mint s = text_eq s.kind (txt "mint")

unfoldable pub is_nft_mint : SignedTransaction → Bool
is_nft_mint s = text_eq s.kind (txt "nft_mint")

unfoldable pub is_nft_transfer : SignedTransaction → Bool
is_nft_transfer s = text_eq s.kind (txt "nft_transfer")

unfoldable pub is_nft : SignedTransaction → Bool
is_nft s = is_nft_mint s || is_nft_transfer s

unfoldable pub is_amm : SignedTransaction → Bool
is_amm s = is_some s.amm || has_prefix s.kind (txt "amm_") || has_prefix s.kind (txt "asset_")
