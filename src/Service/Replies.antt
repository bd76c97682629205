-- ===== src/Service/Replies.antt =====
-- peer/runtime_ops.go and peer/account/transaction.go: the ids and the answers of the handlers below
-- /admin.
use pokoinpos.Prelude.{ℕ, ◌*◌, ◌%◌, ◌^◌, Bool, true, false, Option, none, some, List, [], ◌∷◌, ◌++◌}
use pokoinpos.Prelude.Run.{Run, done, ◌>>=◌}
use pokoinpos.Text.{Text, txt}
use pokoinpos.Text.Hex.{hex_text}
use pokoinpos.Tx.{SignedTransaction, NftPayload, AmmPayload}
use pokoinpos.Peer.{Peer}
use pokoinpos.Service.{text, number, literal, Response, json, failure}
use Prim.Native.Nat.{bit_xor}

-- One byte of fnv.New64a.
abbrev pub fnv_byte : ℕ → ℕ → ℕ
fnv_byte h b = bit_xor h b * 1099511628211 % 2 ^ 64

unfoldable pub fnv_bytes : ℕ → Text → ℕ
fnv_bytes h [] = h
fnv_bytes h (b ∷ s) = fnv_bytes (fnv_byte h b) s

-- The parts, each with a zero byte after it.
unfoldable pub fnv_parts : ℕ → List Text → ℕ
fnv_parts h [] = h
fnv_parts h (part ∷ rest) = fnv_parts (fnv_byte (fnv_bytes h part) 0) rest

unfoldable pub stable_nft_tx_id : List Text → Text
stable_nft_tx_id parts = txt "nft-" ++ hex_text (fnv_parts 14695981039346656037 parts)

-- A text with dashes between its parts, as the formats of the ids have them.
unfoldable pub dashed : List Text → Text
dashed [] = []
dashed (s ∷ rest) = elim rest [ [] ↦ s | t ∷ more ↦ s ++ txt "-" ++ dashed rest ]

abbrev pub Handled : Type 0
Handled = Run (Response × Peer)

-- The answer to a request that made a transaction, or none.
unfoldable pub accepted :
    Response → (SignedTransaction → Response) → Run (Option SignedTransaction × Peer) → Handled
accepted refused answer run = do
  (made, p) ← run
  done (elim made [ none ↦ refused | some t ↦ answer t ], p)

unfoldable pub paid_answer : SignedTransaction → Response
paid_answer t = json 202 (
    literal
      ((txt "hash", text t.id) ∷ (txt "to", text t.to) ∷ (txt "amount", number t.amount) ∷ []))

-- The answer on the NFT of a transaction, where it has one.
unfoldable pub nft_answer :
    Response → (NftPayload → SignedTransaction → Response) → SignedTransaction → Response
nft_answer refused answer t = elim t.nft [ none ↦ refused | some nft ↦ answer nft t ]

unfoldable pub amm_answer :
    Response → (AmmPayload → SignedTransaction → Response) → SignedTransaction → Response
amm_answer refused answer t = elim t.amm [ none ↦ refused | some amm ↦ answer amm t ]

unfoldable pub nft_minted : NftPayload → SignedTransaction → Response
nft_minted nft t = json 202 (
    literal (
      (txt "hash", text t.id)
      ∷ (txt "collectionId", text nft.collection_id)
      ∷ (txt "tokenId", text nft.token_id)
      ∷ (txt "owner", text nft.owner)
      ∷ (txt "metadataUri", text nft.metadata_uri)
      ∷ (txt "metadataHash", text nft.metadata_hash)
      ∷ (txt "imageUri", text nft.image_uri)
      ∷ []))

unfoldable pub nft_transferred : NftPayload → SignedTransaction → Response
nft_transferred nft t = json 202 (
    literal (
      (txt "hash", text t.id)
      ∷ (txt "collectionId", text nft.collection_id)
      ∷ (txt "tokenId", text nft.token_id)
      ∷ (txt "to", text t.to)
      ∷ []))

unfoldable pub accounted : AmmPayload → SignedTransaction → Response
accounted amm t = json 202 (
    literal (
      (txt "hash", text t.id)
      ∷ (txt "asset", text amm.asset)
      ∷ (txt "account", text t.to)
      ∷ (txt "amount", number amm.amount)
      ∷ (txt "action", text amm.action)
      ∷ []))

unfoldable pub pool_created : AmmPayload → SignedTransaction → Response
pool_created amm t = json 202 (
    literal (
      (txt "hash", text t.id)
      ∷ (txt "poolId", text amm.pool_id)
      ∷ (txt "assetA", text amm.asset_a)
      ∷ (txt "assetB", text amm.asset_b)
      ∷ []))

unfoldable pub liquidity_added : AmmPayload → SignedTransaction → Response
liquidity_added amm t = json 202 (
    literal (
      (txt "hash", text t.id)
      ∷ (txt "poolId", text amm.pool_id)
      ∷ (txt "amountA", number amm.amount_a)
      ∷ (txt "amountB", number amm.amount_b)
      ∷ []))

-- json.Decoder on the body, and the test of what it yields.
unfoldable pub decoded {ℓ} :
    {A : Type ℓ} → Option A → (A → Bool) → Text → Peer → (A → Handled) → Handled
decoded body wrong name p act = elim body [
  | none ↦ done (failure 400 (txt "invalid_json"), p)
  | some req ↦ elim (wrong req) [ true ↦ done (failure 400 name, p) | false ↦ act req ]
]
