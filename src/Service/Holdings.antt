-- ===== src/Service/Holdings.antt =====
-- peer/runtime_ops.go: the handlers of NFTs, pools, balances and quotes.
use pokoinpos.Prelude.{
  Bool, true, false, ◌||◌, Option, none, some, List, [], ◌∷◌, map, if◌then◌else◌, length, reverse,
  ◌==◌,
}
use pokoinpos.Prelude.Int.{ℤ, pos, ltb_ℤ}
use pokoinpos.Prelude.Run.{Run, done, ◌>>=◌}
use pokoinpos.Text.{
  Text, txt, text_eq, text_ltb, is_empty, trim_space, trim_prefix, has_prefix, to_upper, split_byte,
}
use pokoinpos.GoMap.{Map}
use pokoinpos.Tx.{NftToken, AmmPool}
use pokoinpos.Amm.{quote_swap}
use pokoinpos.Explorer.Pages.{query_int}
use pokoinpos.Peer.{Peer, Wire}
use pokoinpos.Peer.Addresses.{sort_by}
use pokoinpos.Peer.Best.{
  best_nfts, best_nft, best_nfts_by_owner, best_asset_balances, best_amm_pools, best_amm_pool,
}
use pokoinpos.Service.{
  Fields, text, number, items, natural, literal, slice, object, field, no_fields, any_nft_token,
  any_amm_pool, any_amm_quote, AmmQuote, Request, Response, json, failure,
}

-- `strings.Trim(path, "/")`
unfoldable pub trim_left_slashes : Text → Text
trim_left_slashes [] = []
trim_left_slashes (c ∷ s) = if c == 47 then trim_left_slashes s else c ∷ s

unfoldable pub trim_slashes : Text → Text
trim_slashes s = reverse (trim_left_slashes (reverse (trim_left_slashes s)))

-- The order of sortNFTTokens.
unfoldable pub token_before : NftToken → NftToken → Bool
token_before a b =
    if text_eq a.collection_id b.collection_id
    then text_ltb a.token_id b.token_id
    else text_ltb a.collection_id b.collection_id

unfoldable pub insert_token : NftToken → List NftToken → List NftToken
insert_token a [] = a ∷ []
insert_token a (b ∷ rest) =
    let below = insert_token a rest in if token_before a b then a ∷ b ∷ rest else b ∷ below

unfoldable pub sort_nft_tokens : List NftToken → List NftToken
sort_nft_tokens [] = []
sort_nft_tokens (t ∷ rest) = insert_token t (sort_nft_tokens rest)

unfoldable pub unburned : Map NftToken → List NftToken
unburned [] = []
unburned ((key, t) ∷ rest) = let kept = unburned rest in if t.burned then kept else t ∷ kept

-- The JSON of a map with numbers.
unfoldable pub amounts : Map ℤ → Fields
amounts [] = no_fields
amounts ((key, n) ∷ rest) = field key (number n) (amounts rest)

-- The quote that swapQuote writes, with the reserves on the sides of the swap.
unfoldable pub quote_of : AmmPool → Text → ℤ → ℤ → AmmQuote
quote_of pool given amount_in amount_out =
    let asset_in = to_upper given in
    let turned = text_eq asset_in pool.asset_b in
    let reserve_in = if turned then pool.reserve_b else pool.reserve_a in
    let reserve_out = if turned then pool.reserve_a else pool.reserve_b in
    record {
      pool_id = pool.id;
      asset_in = asset_in;
      asset_out = if turned then pool.asset_a else pool.asset_b;
      amount_in = amount_in;
      amount_out = amount_out;
      fee_bps = pool.fee_bps;
      reserve_in = reserve_in;
      reserve_out = reserve_out;
      price_numerator = reserve_out;
      price_denominator = reserve_in;
    }

-- The end of swapQuote, on a pool.
unfoldable pub quote_on : Option AmmPool → Text → ℤ → Run Response
quote_on none asset_in amount_in = done (failure 400 (txt "invalid_quote_request"))
quote_on (some pool) asset_in amount_in = elim (ltb_ℤ amount_in (pos 1) || is_empty asset_in) [
  | true ↦ done (failure 400 (txt "invalid_quote_request"))
  | false ↦ do
    quoted ← quote_swap pool asset_in amount_in
    done (elim quoted [
      | none ↦ failure 400 (txt "quote_unavailable")
      | some amount_out ↦ json 200 (any_amm_quote (quote_of pool asset_in amount_in amount_out))
    ])
]

module _ (w : Wire) where
  -- The tokens of an owner.
  unfoldable pub owned_nfts : Text → Peer → Run Response
  owned_nfts owner p = do
    tokens ← best_nfts_by_owner w owner p
    done (
        json 200 (
          literal (
            (txt "owner", text owner)
            ∷ (txt "count", natural (length tokens))
            ∷ (txt "tokens", items (slice any_nft_token (sort_nft_tokens tokens)))
            ∷ [])))

  unfoldable pub all_nfts : Peer → Run Response
  all_nfts p = do
    nfts ← best_nfts w p
    let tokens = unburned nfts
    done (
        json 200 (
          literal (
            (txt "count", natural (length tokens))
            ∷ (txt "tokens", items (slice any_nft_token (sort_nft_tokens tokens)))
            ∷ [])))

  -- One token, by the parts of the path.
  unfoldable pub one_nft : List Text → Peer → Run Response
  one_nft [] p = done (failure 404 (txt "nft_not_found"))
  one_nft (collection ∷ []) p = done (failure 404 (txt "nft_not_found"))
  one_nft (collection ∷ token ∷ c ∷ more) p = done (failure 404 (txt "nft_not_found"))
  one_nft (collection ∷ token ∷ []) p = do
    found ← best_nft w collection token p
    elim found [
      | none ↦ done (failure 404 (txt "nft_not_found"))
      | some t ↦
          done (if t.burned then failure 404 (txt "nft_not_found") else json 200 (any_nft_token t))
    ]

  unfoldable pub chain_nfts : Request → Peer → Run Response
  chain_nfts r p =
      let path = trim_slashes (trim_prefix r.path (txt "/chain/nfts")) in
      let owner = trim_space (r.query (txt "owner")) in
      elim (has_prefix path (txt "owner/")) [
        | true ↦ owned_nfts (trim_prefix path (txt "owner/")) p
        | false ↦ elim (is_empty path) [
          | false ↦ one_nft (split_byte path 47) p
          | true ↦ elim (is_empty owner) [ false ↦ owned_nfts owner p | true ↦ all_nfts p ]
        ]
      ]

  unfoldable pub swap_pools : Request → Peer → Run Response
  swap_pools r p =
      let path = trim_slashes (trim_prefix r.path (txt "/chain/swap/pools")) in
      elim (is_empty path) [
        | false ↦ do
          found ← best_amm_pool w path p
          done (elim found [
            | none ↦ failure 404 (txt "pool_not_found")
            | some pool ↦ json 200 (any_amm_pool pool)
          ])
        | true ↦ do
          pools ← best_amm_pools w p
          let sorted = sort_by (λ pool. pool.id) (map (λ e. e.1) pools)
          done (
              json 200 (
                literal (
                  (txt "count", natural (length sorted))
                  ∷ (txt "pools", items (slice any_amm_pool sorted))
                  ∷ [])))
      ]

  unfoldable pub swap_balances : Request → Peer → Run Response
  swap_balances r p =
      let address = trim_space (trim_prefix r.path (txt "/chain/swap/balances/")) in
      elim (is_empty address) [
        | true ↦ done (failure 400 (txt "missing_address"))
        | false ↦ do
          balances ← best_asset_balances w address p
          done (
              json 200 (
                literal (
                  (txt "address", text address)
                  ∷ (txt "balances", object (amounts balances))
                  ∷ [])))
      ]

  unfoldable pub swap_quote : Request → Peer → Run Response
  swap_quote r p = do
    found ← best_amm_pool w (trim_space (r.query (txt "pool"))) p
    quote_on found (trim_space (r.query (txt "assetIn")))
        (query_int w.atoi (r.query (txt "amountIn")) (pos 0))
