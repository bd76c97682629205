-- ===== src/Assets.antt =====
-- peer/account/transaction.go: how assets, pools, NFTs and account names are spelled in the state.
-- Every key is normalised before it is looked up.
pub mod PoolNames
use pokoinpos.Prelude.{Bool, ◌||◌, List, [], ◌∷◌, ◌++◌, if◌then◌else◌}
use pokoinpos.Text.{
  Text, txt, is_empty, text_eq, text_ltb, trim_space, to_upper, to_lower, equal_fold, has_prefix,
  replace_byte, split_byte,
}

abbrev pub asset_pkn : Text
asset_pkn = txt "PKN"

abbrev pub asset_wpkn : Text
asset_wpkn = txt "WPKN"

unfoldable pub normalize_asset : Text → Text
normalize_asset name =
    let asset = to_upper (trim_space name) in
    if is_empty asset || text_eq asset asset_pkn
    then asset
    else if text_eq asset (txt "WPKN") || text_eq asset (txt "W-PKN")
    then asset_wpkn
    else asset

unfoldable pub pool_id : Text → Text → Text
unfolding normalize_asset
pool_id a b =
    let x = normalize_asset a in
    let y = normalize_asset b in
    if is_empty x || is_empty y || text_eq x y
    then []
    else if text_ltb x y
    then x ++ txt "-" ++ y
    else y ++ txt "-" ++ x

-- `if len(parts) == 2 { return PoolID(parts[0], parts[1]) }`
abbrev pool_id_of_parts : Text → List Text → Text
pool_id_of_parts name (a ∷ b ∷ []) = pool_id a b
pool_id_of_parts name _ = to_upper name

unfoldable pub normalize_pool_id : Text → Text
unfolding pool_id
normalize_pool_id raw =
    let name = replace_byte (replace_byte (trim_space raw) b'_' b'-') b'/' b'-' in
    pool_id_of_parts name (split_byte name b'-')

unfoldable pub normalize_asset_account : Text → Text
normalize_asset_account raw =
    let account = trim_space raw in
    if has_prefix account (txt "0x") || has_prefix account (txt "0X")
    then to_lower account
    else account

unfoldable pub normalize_nft_id : Text → Text
normalize_nft_id value = to_lower (replace_byte (trim_space value) b'/' b'-')

unfoldable pub nft_key : Text → Text → Text
unfolding normalize_nft_id
nft_key collection token =
    let c = normalize_nft_id collection in
    let t = normalize_nft_id token in if is_empty c || is_empty t then [] else c ++ txt "/" ++ t

unfoldable pub normalize_nft_account : Text → Text
normalize_nft_account raw =
    let value = trim_space raw in
    if has_prefix value (txt "0x") || has_prefix value (txt "0X") then to_lower value else value

unfoldable pub same_nft_account : Text → Text → Bool
unfolding normalize_nft_account
same_nft_account a b =
    let left = normalize_nft_account a in
    let right = normalize_nft_account b in
    if has_prefix left (txt "0x") || has_prefix right (txt "0x")
    then equal_fold left right
    else text_eq left right
