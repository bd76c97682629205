-- ===== src/Transaction/Make.antt =====
-- The constructors of transactions, signTransaction and HasRecordedTransaction. `none` stands for the
-- error that NewEVMTransaction returns.
use pokoinpos.Prelude.{
  ◌%◌, ◌/◌, Bool, false, Option, none, some, [], ◌++◌, ◌==◌, ltb, if◌then◌else◌,
}
use pokoinpos.Prelude.Int.{ℤ, pos, negsuc}
use pokoinpos.Text.{Text, txt, trim_space, trim_prefix, to_lower}
use pokoinpos.GoMap.{has}
use pokoinpos.Base64
use pokoinpos.Crypto.{Account, safe_encode, rsa_sign, big_int_bytes}
use pokoinpos.Tx.{SignedTransaction, NftPayload, AmmPayload}
use pokoinpos.Assets.{pool_id, normalize_asset_account, normalize_nft_id, normalize_nft_account}
use pokoinpos.Ledger.{Ledger}
use pokoinpos.Platform.{Platform, EvmTransaction}
use pokoinpos.Transaction.Normal.{normalize_amm, decode_pokoin_swap_calldata}
use pokoinpos.Transaction.Verify.{marshal_content_for_signature, no_amm, no_nft}

unfoldable pub has_recorded_transaction : Ledger → SignedTransaction → Bool
has_recorded_transaction l t = has t.id l.tx_history

-- The zero value of SignedTransaction.
abbrev pub no_transaction : SignedTransaction
no_transaction = record {
  id = [];
  from = [];
  to = [];
  amount = pos 0;
  signature = [];
  kind = [];
  nonce = 0;
  raw = [];
  chain_id = pos 0;
  nft = none;
  amm = none;
}

-- The PKN of a value in the unit of Ethereum, where it is whole and fits an int64.
unfoldable pub whole_amount : Option ℤ → Option ℤ
whole_amount none = none
whole_amount (some (negsuc n)) = none
whole_amount (some (pos v)) =
    if v % 1000000000000000000 == 0
    then if ltb (v / 1000000000000000000) 9223372036854775808
      then some (pos (v / 1000000000000000000))
      else none
    else none

module _ (pf : Platform) where
  unfoldable pub sign_transaction : SignedTransaction → Account → SignedTransaction
  sign_transaction s signer = record s {
    signature =
        Base64.encode (
          big_int_bytes
            (rsa_sign pf.sha256 (marshal_content_for_signature pf s) signer.d signer.n));
  }

  unfoldable pub new_signed_transaction : Text → Account → Text → ℤ → SignedTransaction
  new_signed_transaction id from to amount =
      sign_transaction
        (record no_transaction { id = id; from = safe_encode from; to = to; amount = amount }) from

  unfoldable pub new_mint_transaction : Text → Account → Text → ℤ → SignedTransaction
  new_mint_transaction id from to amount =
      sign_transaction (record (new_signed_transaction id from to amount) { kind = txt "mint" })
        from

  unfoldable pub new_nft_mint_transaction :
      Text → Account → Text → Text → Text → Text → Text → Text → SignedTransaction
  new_nft_mint_transaction id from collection token owner uri hash image =
      let nft : NftPayload = record {
        collection_id = normalize_nft_id collection;
        token_id = normalize_nft_id token;
        owner = normalize_nft_account owner;
        metadata_uri = trim_space uri;
        metadata_hash = trim_space hash;
        image_uri = trim_space image;
        burned = false;
      } in
      sign_transaction
        (record no_transaction {
          id = id;
          from = safe_encode from;
          to = normalize_nft_account owner;
          kind = txt "nft_mint";
          nft = some nft;
        })
        from

  unfoldable pub new_nft_transfer_transaction :
      Text → Account → Text → Text → Text → SignedTransaction
  new_nft_transfer_transaction id from collection token to =
      let nft : NftPayload = record no_nft {
        collection_id = normalize_nft_id collection;
        token_id = normalize_nft_id token;
      } in
      sign_transaction
        (record no_transaction {
          id = id;
          from = safe_encode from;
          to = normalize_nft_account to;
          kind = txt "nft_transfer";
          nft = some nft;
        })
        from

  unfoldable pub new_operator_amm_transaction :
      Text → Account → Text → AmmPayload → SignedTransaction
  new_operator_amm_transaction id from to amm =
      sign_transaction
        (normalize_amm (record no_transaction {
          id = id;
          from = safe_encode from;
          to = normalize_asset_account to;
          kind = amm.action;
          amm = some amm;
        }))
        from

  unfoldable pub new_asset_credit_transaction : Text → Account → Text → Text → ℤ → SignedTransaction
  new_asset_credit_transaction id from asset to amount =
      new_operator_amm_transaction id from to
        (record no_amm { action = txt "asset_credit"; asset = asset; amount = amount })

  unfoldable pub new_asset_debit_transaction : Text → Account → Text → Text → ℤ → SignedTransaction
  new_asset_debit_transaction id from asset account amount =
      new_operator_amm_transaction id from account
        (record no_amm { action = txt "asset_debit"; asset = asset; amount = amount })

  unfoldable pub new_amm_create_pool_transaction : Text → Account → Text → Text → SignedTransaction
  new_amm_create_pool_transaction id from a b =
      new_operator_amm_transaction id from [] (record no_amm {
        action = txt "amm_create_pool";
        asset_a = a;
        asset_b = b;
        pool_id = pool_id a b;
      })

  unfoldable pub new_amm_add_liquidity_transaction :
      Text → Account → Text → ℤ → ℤ → SignedTransaction
  new_amm_add_liquidity_transaction id from pool amount_a amount_b =
      new_operator_amm_transaction id from [] (record no_amm {
        action = txt "amm_add_liquidity";
        pool_id = pool;
        amount_a = amount_a;
        amount_b = amount_b;
      })

  -- The transaction that a decoded Ethereum transaction stands for; a swap in its data is taken out.
  unfoldable pub of_evm : Text → ℤ → EvmTransaction → Text → ℤ → SignedTransaction
  of_evm raw chain tx from amount =
      let normalized = trim_prefix (trim_space raw) (txt "0x") in
      let s : SignedTransaction = record no_transaction {
        id = to_lower tx.hash;
        from = to_lower from;
        to = elim tx.to [ none ↦ [] | some to ↦ to_lower to ];
        amount = amount;
        signature = txt "evm:" ++ normalized;
        kind = txt "evm";
        nonce = tx.nonce;
        raw = txt "0x" ++ normalized;
        chain_id = chain;
      } in
      elim (decode_pokoin_swap_calldata pf tx.payload) [
        | none ↦ s
        | some amm ↦ record s { kind = amm.action; amm = some amm; amount = pos 0 }
      ]

  unfoldable pub new_evm_transaction : Text → ℤ → Option SignedTransaction
  new_evm_transaction raw chain =
      elim (pf.decode_transaction (txt "0x" ++ trim_prefix (trim_space raw) (txt "0x"))) [
        | none ↦ none
        | some tx ↦ elim (pf.sender chain tx) [
          | none ↦ none
          | some from ↦ elim (whole_amount tx.value) [
            | none ↦ none
            | some amount ↦ some (of_evm raw chain tx from amount)
          ]
        ]
      ]
