-- ===== src/Transaction/Normal.antt =====
-- normalizeAMM, validAMM, validNFTMint, validNFTTransfer, `equal` and the calldata of a swap: the
-- normal form of a payload and what makes it well-formed.
use pokoinpos.Prelude.{
  Bool, false, ◌&&◌, ◌||◌, not, Option, none, some, if◌then◌else◌, length, drop,
}
use pokoinpos.Prelude.Int.{pos, eqb_ℤ, leb_ℤ, ltb_ℤ}
use pokoinpos.Text.{Text, txt, is_empty, text_eq, trim_space, to_lower, has_prefix}
use pokoinpos.Tx.{SignedTransaction, NftPayload, AmmPayload}
use pokoinpos.Assets.{
  asset_pkn, normalize_asset, normalize_pool_id, normalize_asset_account, normalize_nft_id,
  normalize_nft_account, pool_id,
}
use pokoinpos.Amm.{amm_fee_bps}
use pokoinpos.Platform.{Platform}

-- `strings.ToLower(strings.TrimSpace(action))`
abbrev pub normal_action : Text → Text
normal_action action = to_lower (trim_space action)

-- The fields that every normal form respells.
unfoldable pub normal_names : AmmPayload → AmmPayload
normal_names a = record a {
  action = normal_action a.action;
  asset = normalize_asset a.asset;
  asset_a = normalize_asset a.asset_a;
  asset_b = normalize_asset a.asset_b;
  asset_in = normalize_asset a.asset_in;
  asset_out = normalize_asset a.asset_out;
  pool_id = normalize_pool_id a.pool_id;
}

-- The pool of the two assets where none is named, and the fee where none is given.
unfoldable pub normal_amm : AmmPayload → AmmPayload
unfolding normal_names
normal_amm raw =
    let a = normal_names raw in
    record a {
      pool_id =
          if is_empty a.pool_id && not (is_empty a.asset_a) && not (is_empty a.asset_b)
          then pool_id a.asset_a a.asset_b
          else a.pool_id;
      fee_bps = if eqb_ℤ a.fee_bps (pos 0) then amm_fee_bps else a.fee_bps;
    }

-- The method normalizeAMM.
unfoldable pub normalize_amm : SignedTransaction → SignedTransaction
normalize_amm s = elim s.amm [
  | none ↦ s
  | some raw ↦
      let a = normal_amm raw in
      record s { amm = some a; kind = a.action; to = normalize_asset_account s.to }
]

-- The switch of validAMM, on the normalised transaction.
unfoldable pub valid_action : SignedTransaction → AmmPayload → Bool
valid_action s a =
    if text_eq a.action (txt "asset_credit") || text_eq a.action (txt "asset_debit")
    then not (is_empty s.to)
      && not (is_empty a.asset)
      && not (text_eq a.asset asset_pkn)
      && ltb_ℤ (pos 0) a.amount
    else if text_eq a.action (txt "amm_create_pool")
    then not (is_empty a.pool_id)
      && not (is_empty a.asset_a)
      && not (is_empty a.asset_b)
      && not (text_eq a.asset_a a.asset_b)
    else if text_eq a.action (txt "amm_add_liquidity")
    then not (is_empty a.pool_id) && ltb_ℤ (pos 0) a.amount_a && ltb_ℤ (pos 0) a.amount_b
    else if text_eq a.action (txt "amm_swap")
    then not (is_empty a.pool_id)
      && not (is_empty a.asset_in)
      && not (is_empty a.asset_out)
      && not (text_eq a.asset_in a.asset_out)
      && ltb_ℤ (pos 0) a.amount_in
      && leb_ℤ (pos 0) a.min_amount_out
    else false

valid_normal_amm : SignedTransaction → Bool
unfolding valid_action
valid_normal_amm s = elim s.amm [
  | none ↦ false
  | some a ↦
      if is_empty s.id || is_empty s.from || is_empty a.action then false else valid_action s a
]

unfoldable pub valid_amm : SignedTransaction → Bool × SignedTransaction
unfolding valid_normal_amm normalize_amm
valid_amm s = let s' = normalize_amm s in (valid_normal_amm s', s')

unfoldable pub normal_nft : NftPayload → NftPayload
normal_nft nft = record nft {
  collection_id = normalize_nft_id nft.collection_id;
  token_id = normalize_nft_id nft.token_id;
}

unfoldable pub valid_nft_mint : SignedTransaction → Bool × SignedTransaction
unfolding normal_nft
valid_nft_mint s = elim s.nft [
  | none ↦ (false, s)
  | some raw ↦
      let named = normal_nft raw in
      let nft : NftPayload = record named { owner = normalize_nft_account named.owner } in
      let to = normalize_nft_account s.to in
      (
        not (is_empty s.id)
            && not (is_empty s.from)
            && not (is_empty nft.collection_id)
            && not (is_empty nft.token_id)
            && (not (is_empty nft.owner) || not (is_empty to)),
        record s { nft = some nft; to = to },
      )
]

unfoldable pub valid_nft_transfer : SignedTransaction → Bool × SignedTransaction
unfolding normal_nft
valid_nft_transfer s = elim s.nft [
  | none ↦ (false, s)
  | some raw ↦
      let nft = normal_nft raw in
      let to = normalize_nft_account s.to in
      (
        not (is_empty s.id)
            && not (is_empty s.from)
            && not (is_empty to)
            && not (is_empty nft.collection_id)
            && not (is_empty nft.token_id),
        record s { nft = some nft; to = to },
      )
]

-- The method `equal` of AMMPayload.
unfoldable pub amm_equal : AmmPayload → AmmPayload → Bool
unfolding normal_names
amm_equal x y =
    let a = normal_names x in
    let b = normal_names y in
    text_eq a.action b.action
    && text_eq a.pool_id b.pool_id
    && text_eq a.asset b.asset
    && text_eq a.asset_a b.asset_a
    && text_eq a.asset_b b.asset_b
    && text_eq a.asset_in b.asset_in
    && text_eq a.asset_out b.asset_out
    && eqb_ℤ a.amount b.amount
    && eqb_ℤ a.amount_a b.amount_a
    && eqb_ℤ a.amount_b b.amount_b
    && eqb_ℤ a.amount_in b.amount_in
    && eqb_ℤ a.min_amount_out b.min_amount_out

abbrev pub pokoin_swap_calldata_prefix : Text
pokoin_swap_calldata_prefix = txt "pokoinswap:v1:"

module _ (pf : Platform) where
  unfoldable pub decode_pokoin_swap_calldata : Text → Option AmmPayload
  unfolding normal_amm
  decode_pokoin_swap_calldata calldata =
      if has_prefix calldata pokoin_swap_calldata_prefix
      then (elim (pf.unmarshal_amm (drop (length pokoin_swap_calldata_prefix) calldata)) [
        | none ↦ none
        | some payload ↦ some (normal_amm payload)
      ])
      else none
