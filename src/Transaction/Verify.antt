-- ===== src/Transaction/Verify.antt =====
-- marshalContentForSignature and Verify: what a signature covers and when a transaction is authentic.
use pokoinpos.Prelude.{
  Bool, false, ◌&&◌, ◌||◌, not, Option, none, some, List, [], ◌∷◌, ◌++◌, ◌==◌, if◌then◌else◌,
}
use pokoinpos.Prelude.Int.{ℤ, pos, eqb_ℤ, ◌*ℤ◌}
use pokoinpos.Prelude.Run.{Run, done, ◌>>=◌}
use pokoinpos.Text.{Text, txt, is_empty, equal_fold, trim_prefix}
use pokoinpos.Text.Decimal.{itoa}
use pokoinpos.Tx.{SignedTransaction, NftPayload, AmmPayload, is_evm, is_amm, is_nft}
use pokoinpos.Assets.{normalize_asset_account, normalize_nft_account}
use pokoinpos.Base64
use pokoinpos.Crypto.{verify_signature, public_key_from_account_name}
use pokoinpos.Platform.{Platform, EvmTransaction}
use pokoinpos.Transaction.Normal.{
  normal_names, normal_nft, normalize_amm, amm_equal, decode_pokoin_swap_calldata,
}

abbrev pub pokoin_swap_router_address : Text
pokoin_swap_router_address = txt "0x0000000000000000000000000000000000002606"

abbrev pub no_amm : AmmPayload
no_amm = record {
  action = [];
  pool_id = [];
  asset = [];
  asset_a = [];
  asset_b = [];
  asset_in = [];
  asset_out = [];
  amount = pos 0;
  amount_a = pos 0;
  amount_b = pos 0;
  amount_in = pos 0;
  min_amount_out = pos 0;
  amount_out = pos 0;
  fee_bps = pos 0;
}

abbrev pub no_nft : NftPayload
no_nft = record {
  collection_id = [];
  token_id = [];
  owner = [];
  metadata_uri = [];
  metadata_hash = [];
  image_uri = [];
  burned = false;
}

abbrev pub or_else {ℓ} : {A : Type ℓ} → A → Option A → A
or_else d none = d
or_else d (some a) = a

amm_fields : SignedTransaction → List Text
amm_fields s =
    let a = normal_names (or_else no_amm s.amm) in
    s.id
    ∷ s.from
    ∷ normalize_asset_account s.to
    ∷ a.action
    ∷ a.pool_id
    ∷ a.asset
    ∷ a.asset_a
    ∷ a.asset_b
    ∷ a.asset_in
    ∷ a.asset_out
    ∷ itoa a.amount
    ∷ itoa a.amount_a
    ∷ itoa a.amount_b
    ∷ itoa a.amount_in
    ∷ itoa a.min_amount_out
    ∷ []

nft_fields : SignedTransaction → List Text
nft_fields s =
    let n = normal_nft (or_else no_nft s.nft) in
    s.id
    ∷ s.from
    ∷ normalize_nft_account s.to
    ∷ s.kind
    ∷ n.collection_id
    ∷ n.token_id
    ∷ normalize_nft_account n.owner
    ∷ n.metadata_uri
    ∷ n.metadata_hash
    ∷ n.image_uri
    ∷ []

-- The fields that are signed, by the kind of the transaction.
unfoldable pub signed_fields : SignedTransaction → List Text
unfolding amm_fields nft_fields
signed_fields s =
    if is_amm s
    then amm_fields s
    else if is_nft s
    then nft_fields s
    else s.id ∷ s.from ∷ s.to ∷ itoa s.amount ∷ s.kind ∷ []

-- One PKN in the unit of Ethereum, 10^18.
abbrev pub evm_unit : ℤ
evm_unit = pos 1000000000000000000

module _ (pf : Platform) where
  unfoldable pub marshal_content_for_signature : SignedTransaction → Text
  unfolding signed_fields
  marshal_content_for_signature s = pf.marshal_strings (signed_fields s)

  unfoldable pub decode_evm : SignedTransaction → Option EvmTransaction
  decode_evm s =
      let raw = if is_empty s.raw then trim_prefix s.signature (txt "evm:") else s.raw in
      pf.decode_transaction (txt "0x" ++ trim_prefix raw (txt "0x"))

  -- The branch of Verify for a swap that comes as an Ethereum transaction.
  verify_evm_amm : SignedTransaction → EvmTransaction → Text → Bool × SignedTransaction
  verify_evm_amm s tx to =
      if not (equal_fold to s.to) || not (equal_fold s.to pokoin_swap_router_address)
      then (false, s)
      else elim (decode_pokoin_swap_calldata pf tx.payload) [
        | none ↦ (false, s)
        | some amm ↦ elim s.amm [
          | none ↦ (false, s)
          | some mine ↦
              let s' = normalize_amm s in
              (amm_equal amm (or_else no_amm s'.amm) && (tx.nonce == s.nonce), s')
        ]
      ]

  -- `tx.Value() == nil || tx.Value().Cmp(expectedValue) != 0`, turned round.
  value_matches : SignedTransaction → EvmTransaction → Bool
  value_matches s tx = elim tx.value [ none ↦ false | some v ↦ eqb_ℤ v (s.amount *ℤ evm_unit) ]

  verify_decoded : SignedTransaction → EvmTransaction → Bool × SignedTransaction
  unfolding verify_evm_amm value_matches
  verify_decoded s tx =
      if is_amm s
      then elim tx.to [ none ↦ (false, s) | some to ↦ verify_evm_amm s tx to ]
      else elim tx.to [
        | none ↦ (is_empty s.to && not (is_empty tx.payload) && (tx.nonce == s.nonce), s)
        | some to ↦ (equal_fold to s.to && value_matches s tx && (tx.nonce == s.nonce), s)
      ]

  unfoldable pub verify_evm : SignedTransaction → Text → Bool × SignedTransaction
  unfolding verify_decoded
  verify_evm s account = elim (decode_evm s) [
    | none ↦ (false, s)
    | some tx ↦ elim (pf.sender s.chain_id tx) [
      | none ↦ (false, s)
      | some from ↦
          if equal_fold from account && equal_fold tx.hash s.id
          then verify_decoded s tx
          else (false, s)
    ]
  ]

  unfoldable pub verify_native : SignedTransaction → Text → Run Bool
  verify_native s account = elim (Base64.decode s.signature) [
    | none ↦ done false
    | some signature ↦ elim (public_key_from_account_name account) [
      | none ↦ done false
      | some pk ↦ verify_signature pf.sha256 (marshal_content_for_signature s) signature pk
    ]
  ]

  -- The method Verify, with the transaction as it leaves it.
  unfoldable pub verify : SignedTransaction → Text → Run (Bool × SignedTransaction)
  verify s account =
      if is_evm s
      then done (verify_evm s account)
      else do ok ← verify_native s account; done (ok, s)
