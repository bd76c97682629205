-- ===== src/Transaction/Steps.antt =====
-- The parts of Transaction that its handlers share, and the two NFT handlers. A handler returns
-- whether the transaction was applied, the transaction as it leaves it, and the ledger.
use pokoinpos.Prelude.{◌+◌, ◌%◌, ◌^◌, Bool, true, false, ◌||◌, not, none, some, if◌then◌else◌}
use pokoinpos.Prelude.Int.{ℤ, add_int, sub_int}
use pokoinpos.Text.{Text, is_empty}
use pokoinpos.GoMap.{lookup, has, insert}
use pokoinpos.Tx.{SignedTransaction, NftPayload, NftToken}
use pokoinpos.Assets.{normalize_nft_account, same_nft_account, nft_key}
use pokoinpos.Ledger.{Ledger, balance_of}

-- Applied or not, the transaction, and the ledger.
abbrev pub Applied : Type 0
Applied = Bool × SignedTransaction × Ledger

-- `l.TxHistory[t.ID] = *t`
abbrev pub record_tx : SignedTransaction → Ledger → Ledger
record_tx t l = record l { tx_history = insert t.id t l.tx_history }

-- `l.Nonces[t.From] = t.Nonce + 1`, a uint64.
abbrev pub advance_nonce : SignedTransaction → Ledger → Ledger
advance_nonce t l = record l { nonces = insert t.from ((t.nonce + 1) % 2 ^ 64) l.nonces }

-- The first balance read and the second read after the first write: `From` may be `To`.
unfoldable pub move_balance : Text → Text → ℤ → Ledger → Ledger
move_balance from to amount l =
    let l' : Ledger = record l {
      accounts = insert from (sub_int (balance_of l from) amount) l.accounts;
    } in
    record l' { accounts = insert to (add_int (balance_of l' to) amount) l'.accounts }

-- The owner that a mint names, or else its receiver.
abbrev pub mint_owner : SignedTransaction → NftPayload → Text
mint_owner t nft =
    let owner = normalize_nft_account nft.owner in
    if is_empty owner then normalize_nft_account t.to else owner

abbrev pub minted : SignedTransaction → NftPayload → Text → NftToken
minted t nft owner = record {
  collection_id = nft.collection_id;
  token_id = nft.token_id;
  owner = owner;
  minter = t.from;
  metadata_uri = nft.metadata_uri;
  metadata_hash = nft.metadata_hash;
  image_uri = nft.image_uri;
  mint_tx = t.id;
  last_tx = t.id;
  burned = false;
}

-- The branch of a valid and authentic mint of an NFT.
unfoldable pub mint_nft : SignedTransaction → NftPayload → Ledger → Applied
mint_nft t nft l =
    let key = nft_key nft.collection_id nft.token_id in
    let owner = mint_owner t nft in
    if is_empty key || has key l.nfts || is_empty owner
    then (false, t, l)
    else (true, t, record (record_tx t l) { nfts = insert key (minted t nft owner) l.nfts })

-- The branch of a valid and authentic transfer of an NFT.
unfoldable pub transfer_nft : SignedTransaction → NftPayload → Ledger → Applied
transfer_nft t nft l =
    let key = nft_key nft.collection_id nft.token_id in
    elim (lookup key l.nfts) [
      | none ↦ (false, t, l)
      | some token ↦
          if token.burned || not (same_nft_account token.owner t.from) then (false, t, l) else (
            true,
            t,
            record (record_tx t l) {
              nfts =
                  insert key (record token { owner = normalize_nft_account t.to; last_tx = t.id })
                    l.nfts;
            },
          )
    ]
